-- ===== src/Tests/Pages.antt =====
-- The pages of the web client at concrete inputs.
use mathlib.Core.Path.{subst}
use opentreasury.Prelude.{
  ℕ, ◌+◌, ◌*◌, ◌≡◌, ◌≤◌, refl, sym, true, false, ◌||◌, List, [], ◌∷◌, ◌++◌, Option, none, some,
  arith, length,
}
use opentreasury.Prelude.Text.{Text, codes, le_text, same}
use opentreasury.Platform.Double.{round, finer}
use opentreasury.Platform.Double.Literal.Laws.{two_decimals}
use opentreasury.Platform.Number.{nan, of_ℕ}
use opentreasury.Platform.Decimal.{show}
use opentreasury.Platform.Query.{Query, get}
use opentreasury.Platform.Query
use opentreasury.Api.Commitments.Creation.{CommitmentInput, CreateResult, ok, create_commitment}
use opentreasury.Api.Journal.{JournalEntry, posted, standard}
use opentreasury.Api.Journal.Draft.{empty_lines}
use opentreasury.Api.Journal.Draft.Lines.{Edited, begun, edit, added, add_line, length-Edited}
use opentreasury.Api.Reconciliation.{ReconciliationRow, simulated_reconciliation}
use opentreasury.Api.Request.{Env, Request, Reply, unreachable, ListResult, listed}
use opentreasury.Api.Transactions.{TreasuryTransaction, matching_transactions}
use opentreasury.Api.Filter.{
  equals_text, equals_number, from_text, until_text, from_number, until_number,
}
use opentreasury.Table.Filters.{lte, between, apply, derive_operator}
use opentreasury.Pages.Amounts.{typed, upper_bound, derive_operator-commit}
use opentreasury.Table.Range.{page_count}
use opentreasury.Table.Url.{page_of, page_size_of, filters}
use opentreasury.Table.Url.Laws.{given_value}
use opentreasury.Table.View.{DataTableProps, data_table, on_next}
use opentreasury.Table.View.Laws.{on_next_lem}
use opentreasury.Pages.{Host, filter_of, on_dates, on_amounts}
use opentreasury.Pages.Commitments.Dialog.{Form, Dialog, Input, input_of, submit}
use opentreasury.Pages.Commitments.Dialog.Laws.{Leaves, submit_lem}
use opentreasury.Pages.Commitments.Dialog.Demo.{
  double_of, IsNumber, StandsFor, Adds, amount_of, create_commitment-submit,
}
use opentreasury.Api.Post.{PostReply, PostRequest}
use opentreasury.Platform.Double.Literal.{number, trim}
use opentreasury.Pages.Demo.{left, walked, walked-left}
use opentreasury.Pages.Events.{dates-commit}
use opentreasury.Pages.Overview.{flow_series}
use opentreasury.Pages.Overview.Laws.{OneForEach, has_date, has_entry, has_date-flow_series}
use opentreasury.Pages.Reconciliation.{result_rows, chosen_source, source_values}
use opentreasury.Pages.Reconciliation.Laws.{IsDistinct, has, has_row, has-source_values}
use opentreasury.Pages.Transactions.{api_filter}
use opentreasury.Tests.Table.{read_decimal, read_decimal-show}

abbrev host : Host
host = record {
  integer_of = read_decimal;
  read_number = λ text. nan;
  to_locale = λ amount. show amount;
  upper = λ text. text;
  print = λ x. [];
  current_year = 2026;
  translate = λ key. key;
}

abbrev demo : Env
demo = record { api_base_url = none; token = none }

abbrev offline : Request → Reply TreasuryTransaction
offline request = unreachable none

-- The posted transactions, two to a page.
abbrev query : Query
query = (codes "status", codes "POSTED") ∷ (codes "pageSize", codes "2") ∷ []

on_first_page : page_of host.integer_of query ≡ 1
unfolding page_of get same
on_first_page = refl

left_rows : length (left host query) ≡ 3
unfolding left matching_transactions equals_text equals_number from_text until_text from_number
    until_number api_filter get filters same Query.set
left_rows = refl

sized : page_size_of host.integer_of query ≡ 2
unfolding page_size_of get same
sized = refl

two_presses : length (left host query) ≤ 2 * page_size_of host.integer_of query
two_presses = rw (left_rows, sized) (omega arith)

walked-left_example : walked host demo offline query 2 ≡ left host query
walked-left_example =
    walked-left host read_decimal-show demo refl offline query 2 on_first_page two_presses

-- The last update is the one that stands.
abbrev commit : List (Query → Query) → Query → Query
commit [] q = q
commit (update ∷ []) q = update q
commit (first ∷ second ∷ updates) q = commit (second ∷ updates) q

last_stands :
    (updates : List (Query → Query)) (update : Query → Query) (q : Query)
    → commit (updates ++ update ∷ []) q ≡ update q
last_stands [] update q = refl
last_stands (first ∷ []) update q = refl
last_stands (first ∷ second ∷ updates) update q = last_stands (second ∷ updates) update q

dates-commit_example :
    api_filter host (commit (on_dates (some (codes "2026-06-01"), some (codes "2026-06-30"))) query)
    ≡ record (api_filter host query) {
      date_to = given_value (some (codes "2026-06-30"));
      page = some (of_ℕ 1);
    }
dates-commit_example =
    dates-commit host commit last_stands (some (codes "2026-06-01")) (some (codes "2026-06-30"))
      query

no_lower : filter_of (codes "amountGte") query ≡ none
unfolding same get filters Query.set
no_lower = refl

derive_operator-commit_example :
    let handed = apply host.print (typed between 1999 250000) in
    let after = commit (on_amounts handed) query in
    (derive_operator handed.0 handed.1 ≡ between)
    × (filter_of (codes "amountGte") after ≡ none)
    × (filter_of (codes "amountLte") after ≡ upper_bound between 1999 250000)
    × (derive_operator (filter_of (codes "amountGte") after) (filter_of (codes "amountLte") after)
        ≡ lte)
derive_operator-commit_example =
    derive_operator-commit host commit last_stands between 1999 250000 query (omega arith)
      (omega arith) (omega arith) no_lower

abbrev shown_rows : DataTableProps ℕ
shown_rows = record {
  columns = [];
  rows = 1 ∷ 2 ∷ [];
  total = 5;
  page = 1;
  page_size = 2;
  is_pending = false;
  error = none;
  empty_message = codes "Nothing";
}

next_enabled : (data_table shown_rows).next_disabled ≡ false
unfolding data_table page_count
next_enabled = refl

on_next_lem_example :
    (page_of read_decimal (on_next shown_rows.page query) ≡ shown_rows.page + 1)
    × (shown_rows.page + 1 ≤ page_count shown_rows.total shown_rows.page_size)
    × (page_size_of read_decimal (on_next shown_rows.page query) ≡ page_size_of read_decimal query)
on_next_lem_example = on_next_lem read_decimal read_decimal-show shown_rows query next_enabled

abbrev form : Form
form = record {
  id = codes "com-1 ";
  institution_id = codes "minfin";
  fiscal_year = codes "2026";
  account_code = codes "22";
  description = codes " Roads";
  amount_major = two_decimals 1999;
  currency = codes "usd";
  committed_date = codes "2026-07-01";
}

abbrev dialog : Dialog
dialog = record { is_open = true; form = form; toasts = [] }

-- The numbers of this one form, the texts of any.
abbrev wire : Input → CommitmentInput
wire input = record {
  id = input.id;
  institution_id = input.institution_id;
  fiscal_year = of_ℕ 2026;
  account_code = input.account_code;
  description = input.description;
  amount_minor = of_ℕ 1999;
  currency = input.currency;
  committed_date = input.committed_date;
}

year_read : IsNumber (of_ℕ 2026) (number (codes "2026"))
unfolding IsNumber double_of number trim same round finer
year_read = (refl, refl)

amount_read : IsNumber (of_ℕ 1999) (input_of host.upper form).amount_minor
amount_read =
    subst (IsNumber (of_ℕ 1999)) (sym (amount_of host.upper form 1999 (omega arith) refl))
      (unfold IsNumber double_of in (refl, refl))

wire-StandsFor : StandsFor (wire (input_of host.upper form)) (input_of host.upper form)
wire-StandsFor = record {
  id = refl;
  institution = refl;
  year = unfold input_of in year_read;
  account = refl;
  description = refl;
  amount = amount_read;
  currency = refl;
  date = refl;
}

abbrev no_server : PostRequest CommitmentInput → PostReply ℕ
no_server request = PostReply.unreachable none

create_commitment-submit_example :
    let create = λ (input : Input). create_commitment demo no_server (wire input) [] in
    Adds host.upper form 1999 []
      (create (input_of host.upper form))
      dialog
      (submit host.upper (λ input. (create input).1) dialog)
create_commitment-submit_example =
    create_commitment-submit demo no_server host.upper wire [] dialog 1999 refl (omega arith) refl
      wire-StandsFor

abbrev accept : Input → CreateResult
accept input = ok

submit_lem_example :
    Leaves
      (input_of host.upper dialog.form)
      dialog
      (accept (input_of host.upper dialog.form))
      (submit host.upper accept dialog)
submit_lem_example = submit_lem host.upper accept dialog

abbrev reconciled : Option (ListResult ReconciliationRow)
reconciled = some (
    listed simulated_reconciliation (record { page = of_ℕ 1; page_size = of_ℕ 15; total = of_ℕ 3 }))

has-source_values_example :
    IsDistinct (source_values (some (codes "ifmis")) reconciled)
    × (has (codes "itmis") (source_values (some (codes "ifmis")) reconciled) ≡ (
        has_row (codes "itmis") (result_rows reconciled)
        || has (codes "itmis") (chosen_source (some (codes "ifmis")))))
has-source_values_example = has-source_values (some (codes "ifmis")) reconciled (codes "itmis")

abbrev entry_on : Text → JournalEntry
entry_on date = record {
  id = codes "je-1";
  institution_id = codes "minfin";
  fiscal_year = of_ℕ 2026;
  effective_date = date;
  description = codes "Payment";
  status = posted;
  entry_type = standard;
  reverses_entry_id = none;
  lines = [];
}

abbrev entries : List JournalEntry
entries =
    entry_on (codes "2026-07-02")
    ∷ entry_on (codes "2026-07-01")
    ∷ entry_on (codes "2026-07-02")
    ∷ []

has_date-flow_series_example :
    OneForEach (flow_series le_text entries)
    × (has_date (codes "2026-07-02") (flow_series le_text entries)
        ≡ has_entry (codes "2026-07-02") entries)
has_date-flow_series_example = has_date-flow_series le_text entries (codes "2026-07-02")

three_lines-Edited : Edited (add_line empty_lines)
three_lines-Edited = edit begun (added empty_lines)

length-Edited_example : 2 ≤ length (add_line empty_lines)
length-Edited_example = length-Edited (add_line empty_lines) three_lines-Edited

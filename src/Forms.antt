-- ===== src/Forms.antt =====
-- apps/web/src/transaction.ts and history.ts: the forms of a transaction and of the history, and
-- what they send. `upper` is `toUpperCase`.
pub mod Laws
pub mod Workbench
use opentreasury.Prelude.{
  ℕ, zero, suc, ◌/◌, ◌%◌, Bool, true, false, Option, none, some, if◌then◌else◌, ◌==◌, leb, [], ◌∷◌,
}
use opentreasury.Prelude.Text.{Text, codes, same, is_truthy}
use opentreasury.Platform.Double.{Double, nan, infinite, finite}
use opentreasury.Platform.Double.Literal.{trim, number}
use opentreasury.Platform.Number.{Number, of_ℕ}
use opentreasury.Api.Transactions.{TransactionListFilter}

pub record TransactionFormState : Type 0 where
  pub id : Text
  pub institution_id : Text
  pub fiscal_year : Text
  pub amount_minor : Text
  pub currency : Text
  pub transaction_date : Text
  pub description : Text

-- A transaction as the form makes it, whose numbers are those that JavaScript reads.
pub record TransactionPayload : Type 0 where
  pub id : Text
  pub institution_id : Text
  pub fiscal_year : Double
  pub amount_minor : Double
  pub currency : Text
  pub transaction_date : Text
  pub description : Text
  pub status : Text

unfoldable pub to_transaction_payload : (Text → Text) → TransactionFormState → TransactionPayload
to_transaction_payload upper form = record {
  id = trim form.id;
  institution_id = trim form.institution_id;
  fiscal_year = number form.fiscal_year;
  amount_minor = number form.amount_minor;
  currency = upper (trim form.currency);
  transaction_date = form.transaction_date;
  description = trim form.description;
  status = codes "POSTED";
}

pub record HistoryFilterForm : Type 0 where
  pub institution_id : Text
  pub fiscal_year : Text
  pub limit : Text

-- `Number.isInteger(x) && x > 0`, with the integer.
unfoldable pub positive_integer : Double → Option ℕ
positive_integer nan = none
positive_integer (infinite negative) = none
positive_integer (finite true num den) = none
positive_integer (finite false num den) =
    if num % den == 0 then (if num / den == 0 then none else some (num / den)) else none

-- `Math.min(limit, 100)`
abbrev pub at_most_hundred : ℕ → ℕ
at_most_hundred limit = if leb limit 100 then limit else 100

abbrev pub asked_year : Option ℕ → Option Number
asked_year none = none
asked_year (some year) = some (of_ℕ year)

abbrev pub asked_limit : Option ℕ → Option Number
asked_limit none = none
asked_limit (some limit) = some (of_ℕ (at_most_hundred limit))

unfoldable pub to_transaction_list_filter : HistoryFilterForm → TransactionListFilter
unfolding positive_integer
to_transaction_list_filter form =
    let institution_id = trim form.institution_id in
    record {
      institution_id = if is_truthy institution_id then some institution_id else none;
      fiscal_year = asked_year (positive_integer (number form.fiscal_year));
      status = none;
      date_from = none;
      date_to = none;
      amount_gte = none;
      amount_lte = none;
      page = none;
      page_size = none;
      limit = asked_limit (positive_integer (number form.limit));
    }

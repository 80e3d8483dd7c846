-- ===== src/Api/Journal/Draft.antt =====
-- apps/web/src/routes/journal.tsx: the draft of an entry in the dialog that posts it, and the
-- total that the table shows. `minor_of` is `Math.round((Number(amount) || 0) * 100)`, the rounded
-- amount of a field, for the amounts that are finite; `upper` is `toUpperCase`, `year_of` is
-- `Number` of a year's digits, and `this_year` the year of the clock.
pub mod Laws
pub mod Lines
pub mod Fields
pub mod Demo
use opentreasury.Prelude.{Bool, true, false, ◌&&◌, List, [], ◌∷◌, map, if◌then◌else◌}
use opentreasury.Prelude.Int.{ℤ}
use opentreasury.Prelude.Text.{Text, codes, is_truthy}
use opentreasury.Platform.Number.{Number, int, eq, lt, of_ℕ}
use opentreasury.Platform.Sum.{sum}
use opentreasury.Platform.Slice.{slice}
use opentreasury.Api.Post.{ApiResult, ok, error}
use opentreasury.Api.Journal.{Direction, debit, credit, JournalLine, JournalEntry}
use opentreasury.Api.Journal.Posting.{JournalEntryInput, debits}

unfoldable pub entry_debit_total : JournalEntry → Text × Number
entry_debit_total entry = elim entry.lines [
  | [] ↦ (codes "USD", debits entry.lines)
  | first ∷ others ↦ (first.currency, debits entry.lines)
]

pub record DraftLine : Type 0 where
  pub account_code : Text
  pub direction : Direction
  pub amount : Text
  pub currency : Text

pub record Draft : Type 0 where
  pub is_open : Bool
  pub id : Text
  pub institution_id : Text
  pub effective_date : Text
  pub description : Text
  pub lines : List DraftLine

abbrev pub empty_lines : List DraftLine
empty_lines =
    record { account_code = []; direction = debit; amount = []; currency = codes "USD" }
    ∷ record { account_code = []; direction = credit; amount = []; currency = codes "USD" }
    ∷ []

module _ (minor_of : Text → ℤ) (upper : Text → Text) (year_of : Text → Number)
    (this_year : Number) where
  -- The reduction of the lines to the totals of debits and credits.
  unfoldable pub totals_from : Number → Number → List DraftLine → Number × Number
  totals_from debit_total credit_total [] = (debit_total, credit_total)
  totals_from debit_total credit_total (line ∷ lines) = elim line.direction [
    | debit ↦ totals_from (sum debit_total (int (minor_of line.amount))) credit_total lines
    | credit ↦ totals_from debit_total (sum credit_total (int (minor_of line.amount))) lines
  ]

  unfoldable pub is_balanced : Draft → Bool
  unfolding totals_from
  is_balanced draft =
      let (debit_total, credit_total) = totals_from (of_ℕ 0) (of_ℕ 0) draft.lines in
      eq debit_total credit_total && lt (of_ℕ 0) debit_total

  abbrev pub payload_line : DraftLine → JournalLine
  payload_line line = record {
    account_code = line.account_code;
    direction = line.direction;
    amount_minor = int (minor_of line.amount);
    currency = upper line.currency;
  }

  unfoldable pub payload : Draft → JournalEntryInput
  payload draft = record {
    id = draft.id;
    institution_id = draft.institution_id;
    fiscal_year =
        if is_truthy draft.effective_date
        then year_of (slice draft.effective_date (of_ℕ 0) (of_ℕ 4))
        else this_year;
    effective_date = draft.effective_date;
    description = draft.description;
    lines = map payload_line draft.lines;
  }

-- The draft behind the outcome of posting it.
unfoldable pub after_submit {ℓ κ} : {D : Type ℓ} {J : Type κ} → ApiResult D J → Draft → Draft
after_submit (ok status data_) draft = record draft {
  is_open = false;
  id = [];
  description = [];
  lines = empty_lines;
}
after_submit (error status message) draft = draft

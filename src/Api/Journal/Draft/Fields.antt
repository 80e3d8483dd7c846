-- ===== src/Api/Journal/Draft/Fields.antt =====
-- apps/web/src/routes/journal.tsx: the single fields of the dialog, its buttons, and the bar with
-- its totals. `to_locale` is the format of an amount in the locale.
use opentreasury.Prelude.{Bool, not, ◌||◌, ◌++◌, if◌then◌else◌}
use opentreasury.Prelude.Text.{Text, codes, is_truthy}
use opentreasury.Platform.Number.{Number}
use opentreasury.Api.Journal.Draft.{Draft}
use opentreasury.Api.Transactions.Rows.{format_money}

pub data Field : Type 0 where
  id institution_id effective_date description : Field

-- The setters of the fields.
unfoldable pub set_field : Field → Text → Draft → Draft
set_field id value draft = record draft { id = value }
set_field institution_id value draft = record draft { institution_id = value }
set_field effective_date value draft = record draft { effective_date = value }
set_field description value draft = record draft { description = value }

-- `setOpen`: the dialog keeps its fields while it is closed.
unfoldable pub set_open : Bool → Draft → Draft
set_open is_open draft = record draft { is_open = is_open }

-- The button that posts.
unfoldable pub is_disabled : Bool → Bool → Draft → Bool
is_disabled balanced is_pending draft =
    not balanced || not (is_truthy draft.id) || not (is_truthy draft.institution_id) || is_pending

pub record TotalsBar : Type 0 where
  pub debits : Text
  pub state : Text
  pub credits : Text

unfoldable pub totals_bar : (Number → Text) → Bool → Number → Number → TotalsBar
totals_bar to_locale balanced debit_total credit_total = record {
  debits = codes "Debits " ++ format_money to_locale (codes "") debit_total;
  state = if balanced then codes "Balanced" else codes "Not balanced";
  credits = codes "Credits " ++ format_money to_locale (codes "") credit_total;
}

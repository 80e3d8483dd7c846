-- ===== src/Pages/Commitments/Dialog.antt =====
-- apps/web/src/routes/commitments.tsx: the dialog that creates a commitment. A translated text is
-- the parameter `translate` of its key; `upper` is `toUpperCase`.
pub mod Laws
pub mod Demo
use opentreasury.Prelude.{Bool, true, false, not, ◌&&◌, ◌||◌, List, [], ◌∷◌, zero, suc}
use opentreasury.Prelude.Text.{Text, codes, same}
use opentreasury.Platform.Double.{Double, nan, infinite, finite, times, math_round}
use opentreasury.Platform.Double.Literal.{trim, number}
use opentreasury.Api.Commitments.Creation.{CreateResult, ok, error}

pub record Form : Type 0 where
  pub id : Text
  pub institution_id : Text
  pub fiscal_year : Text
  pub account_code : Text
  pub description : Text
  pub amount_major : Text
  pub currency : Text
  pub committed_date : Text

pub data Field : Type 0 where
  id institution_id fiscal_year account_code description amount_major currency committed_date :
      Field

-- The dialog: whether it is open, its form, and the toasts so far, the latest first.
pub data Toast : Type 0 where
  success_toast : (id : Text) → Toast
  error_toast : (message : Text) → Toast

pub record Dialog : Type 0 where
  pub is_open : Bool
  pub form : Form
  pub toasts : List Toast

-- The form at first, for the day of the clock.
unfoldable pub new_form : Text → Form
new_form today = record {
  id = [];
  institution_id = [];
  fiscal_year = codes "2026";
  account_code = codes "22";
  description = [];
  amount_major = [];
  currency = codes "USD";
  committed_date = today;
}

-- `set(key)(value)`
unfoldable pub set : Field → Text → Form → Form
set id value form = record form { id = value }
set institution_id value form = record form { institution_id = value }
set fiscal_year value form = record form { fiscal_year = value }
set account_code value form = record form { account_code = value }
set description value form = record form { description = value }
set amount_major value form = record form { amount_major = value }
set currency value form = record form { currency = value }
set committed_date value form = record form { committed_date = value }

-- The body that is sent, whose numbers are those that JavaScript computes.
pub record Input : Type 0 where
  pub id : Text
  pub institution_id : Text
  pub fiscal_year : Double
  pub account_code : Text
  pub description : Text
  pub amount_minor : Double
  pub currency : Text
  pub committed_date : Text

unfoldable pub input_of : (Text → Text) → Form → Input
input_of upper form = record {
  id = trim form.id;
  institution_id = form.institution_id;
  fiscal_year = number form.fiscal_year;
  account_code = trim form.account_code;
  description = trim form.description;
  amount_minor = math_round (times (number form.amount_major) 100);
  currency = upper (trim form.currency);
  committed_date = form.committed_date;
}

-- `x > 0`
abbrev pub is_positive : Double → Bool
is_positive nan = false
is_positive (infinite negative) = not negative
is_positive (finite negative zero den) = false
is_positive (finite negative (suc num) den) = not negative

unfoldable pub is_valid : Form → Bool
is_valid form =
    not (same (trim form.id) [])
    && not (same form.institution_id [])
    && not (same (trim form.account_code) [])
    && is_positive (number form.amount_major)

-- The button: what it takes to press it.
unfoldable pub is_disabled : Form → Bool → Bool
unfolding is_valid
is_disabled form is_pending = not (is_valid form) || is_pending

-- What follows the outcome of the call.
unfoldable pub after_create : CreateResult → Dialog → Dialog
after_create ok dialog = record {
  is_open = false;
  form = record dialog.form { id = []; description = []; amount_major = [] };
  toasts = success_toast (trim dialog.form.id) ∷ dialog.toasts;
}
after_create (error message) dialog = record dialog { toasts = error_toast message ∷ dialog.toasts }

-- A press of the button: the input that is sent, and what follows.
unfoldable pub submit : (Text → Text) → (Input → CreateResult) → Dialog → Dialog
unfolding input_of after_create
submit upper create dialog = after_create (create (input_of upper dialog.form)) dialog

-- ===== src/Pages/Commitments/Dialog/Laws.antt =====
-- What a press of the dialog's button sends and leaves behind.
use opentreasury.Prelude.{ℕ, ◌<◌, ◌^◌, ◌≡◌, refl, ◌∙◌, ap, false, [], ◌∷◌, arith}
use opentreasury.Prelude.Text.{Text, same_refl}
use opentreasury.Platform.Double.{finite, times, math_round}
use opentreasury.Platform.Double.Cents.{cents_lem}
use opentreasury.Platform.Double.Literal.{trim}
use opentreasury.Platform.Double.Literal.Laws.{two_decimals, number-two_decimals}
use opentreasury.Api.Commitments.Creation.{CreateResult, ok, error}
use opentreasury.Pages.Commitments.Dialog.{
  Form, Dialog, Input, success_toast, error_toast, set, amount_major, input_of, is_valid,
  after_create, submit,
}

-- An amount of `c` minor units, below 2 ^ 50, that is typed with two decimals is sent as `c`,
-- whatever else the form holds.
pub amount_minor-two_decimals :
    (upper : Text → Text) (form : Form) (c : ℕ)
    → c < 2 ^ 50
    → (input_of upper (set amount_major (two_decimals c) form)).amount_minor ≡ finite false c 1
unfolding input_of set
amount_minor-two_decimals upper form c h =
    ap (λ x. math_round (times x 100)) (number-two_decimals c)
    ∙ cents_lem c c 100 (omega arith) h (omega arith)

trim_nil : trim [] ≡ []
unfolding trim
trim_nil = refl

cleared :
    (form : Form) → is_valid (record form { id = []; description = []; amount_major = [] }) ≡ false
unfolding is_valid
cleared form = rw (trim_nil, same_refl []) refl

-- What an outcome leaves of the dialog when `input` was sent.
pub Leaves : Input → Dialog → CreateResult → Dialog → Type 0
Leaves input dialog ok after =
    (after.is_open ≡ false)
    × (is_valid after.form ≡ false)
    × (after.toasts ≡ success_toast input.id ∷ dialog.toasts)
Leaves input dialog (error message) after =
    after ≡ record dialog { toasts = error_toast message ∷ dialog.toasts }

leaves :
    (upper : Text → Text) (dialog : Dialog) (outcome : CreateResult)
    → Leaves (input_of upper dialog.form) dialog outcome (after_create outcome dialog)
unfolding Leaves after_create input_of
leaves upper dialog ok = (refl, cleared dialog.form, refl)
leaves upper dialog (error message) = refl

-- A press whose call succeeds closes the dialog with the toast of the id that was sent, and its
-- form cannot be sent again as it stands; a press whose call fails leaves the dialog and its form
-- as they were, with the toast of the error.
pub submit_lem :
    (upper : Text → Text) (create : Input → CreateResult) (dialog : Dialog)
    → Leaves
        (input_of upper dialog.form)
        dialog
        (create (input_of upper dialog.form))
        (submit upper create dialog)
unfolding submit
submit_lem upper create dialog = leaves upper dialog (create (input_of upper dialog.form))

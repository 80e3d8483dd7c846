-- ===== src/Forms/Workbench.antt =====
-- apps/web/src/routes/validation.tsx: the workbench, whose two buttons send the form to the API. The
-- calls are parameters, as is `JSON.stringify` of what they give.
use opentreasury.Prelude.{Bool, ◌||◌, List, [], ◌∷◌, ◌++◌, Option, none, some}
use opentreasury.Prelude.Text.{Text, codes}
use opentreasury.Platform.Decimal.{show_ℕ}
use opentreasury.Api.Post.{ApiResult, ok, error}
use opentreasury.Forms.{TransactionFormState, TransactionPayload, to_transaction_payload}

unfoldable pub initial_form : TransactionFormState
initial_form = record {
  id = codes "txn-2026-0001";
  institution_id = codes "minfin";
  fiscal_year = codes "2026";
  amount_minor = codes "125000";
  currency = codes "USD";
  description = codes "Road maintenance payment";
  transaction_date = codes "2026-06-28";
}

pub data Toast : Type 0 where
  created_toast : (id : Text) → Toast
  error_toast : (message : Text) → Toast

-- The page: its form, the result that it shows, and the toasts so far, the latest first.
pub record Workbench {ℓ κ} (D : Type ℓ) (J : Type κ) : Type (ℓ ⊔ κ) where
  pub form : TransactionFormState
  pub result : Option (ApiResult D J)
  pub toasts : List Toast

module _ {ℓ κ} {D : Type ℓ} {J : Type κ} where
  unfoldable pub opened : Workbench D J
  unfolding initial_form
  opened = record { form = initial_form; result = none; toasts = [] }

  -- Behind the wait for the outcome, with the form of the render that was pressed.
  unfoldable pub handle_validate : ApiResult D J → Workbench D J → Workbench D J
  handle_validate outcome page = record page { result = some outcome }

  unfoldable pub toast_of : ApiResult D J → Text → Toast
  toast_of (ok status data_) id = created_toast id
  toast_of (error status message) id = error_toast message

  unfoldable pub handle_create : ApiResult D J → Text → Workbench D J → Workbench D J
  unfolding toast_of
  handle_create outcome id page = record page {
    result = some outcome;
    toasts = toast_of outcome id ∷ page.toasts;
  }

  -- The presses, with the call as a function of the payload.
  unfoldable pub press_validate :
      (Text → Text) → (TransactionPayload → ApiResult D J) → Workbench D J → Workbench D J
  unfolding handle_validate to_transaction_payload
  press_validate upper validate page =
      handle_validate (validate (to_transaction_payload upper page.form)) page

  unfoldable pub press_create :
      (Text → Text) → (TransactionPayload → ApiResult D J) → Workbench D J → Workbench D J
  unfolding handle_create to_transaction_payload
  press_create upper create page =
      handle_create (create (to_transaction_payload upper page.form)) page.form.id page

  -- The badge and the caption of the result.
  unfoldable pub badge : Option (ApiResult D J) → Option Text
  badge none = none
  badge (some (ok status data_)) = some (codes "VALIDATED")
  badge (some (error status message)) = some (codes "REJECTED")

  unfoldable pub caption : Option (ApiResult D J) → Text
  caption none = codes "Submit a payload to validate it against the core API."
  caption (some (ok status data_)) = codes "HTTP " ++ show_ℕ status
  caption (some (error status message)) = codes "HTTP " ++ show_ℕ status

unfoldable pub is_busy : Bool → Bool → Bool
is_busy validate_pending create_pending = validate_pending || create_pending

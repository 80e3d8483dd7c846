-- ===== src/Api/Transactions/Validation.antt =====
-- apps/web/src/api.ts: `simulateValidation`, `validateTransaction`, `createTransaction` and
-- `postTransaction`.
pub mod Laws
use opentreasury.Prelude.{
  ℕ, Bool, true, false, not, ◌&&◌, ◌||◌, List, [], ◌∷◌, Option, none, some, if◌then◌else◌, leb,
  ◌==◌,
}
use opentreasury.Prelude.Text
use opentreasury.Prelude.Text.{Text, codes}
use opentreasury.Platform.Number.{Number, le, is_nan, of_ℕ}
use opentreasury.Api.Request.{Env, is_ok, not_reachable}
use opentreasury.Api.Post.{
  PostRequest, post_request, PostPayload, malformed, json, PostReply, unreachable, response,
  ResultData, no_data, demo_data, body_data, ApiResult, ok, error, post_error,
}
use opentreasury.Api.Transactions.{TreasuryTransaction}

-- `ValidationResponse`, less its fixed status, code and message.
pub record ValidationResponse : Type 0 where
  pub transaction_id : Text
  pub institution_id : Text
  pub fiscal_year : Number
  pub amount_minor : Number
  pub currency : Text
  pub transaction_date : Text

-- The data of the demo mode: `{ id }`, or a validation response.
pub data DemoData : Type 0 where
  created : Text → DemoData
  validated : ValidationResponse → DemoData

abbrev pub is_upper : ℕ → Bool
is_upper c = leb b'A' c && leb c b'Z'

-- `/^[A-Z]{3}$/.test(currency)`
unfoldable pub is_currency : Text → Bool
is_currency (a ∷ b ∷ c ∷ []) = is_upper a && is_upper b && is_upper c
is_currency _ = false

module _ {ℓ} {J : Type ℓ} where
  abbrev pub bad_request : Text → ApiResult DemoData J
  bad_request = error 400

  abbrev pub validation_response : TreasuryTransaction → ApiResult DemoData J
  validation_response t = ok 200 (
      demo_data (
        validated (record {
          transaction_id = t.id;
          institution_id = t.institution_id;
          fiscal_year = t.fiscal_year;
          amount_minor = t.amount_minor;
          currency = t.currency;
          transaction_date = t.transaction_date;
        })))

  -- The first argument tells whether `Date.parse` gives NaN for a string; its rules beyond the ISO
  -- format are the engine's own.
  unfoldable pub simulate_validation : (Text → Bool) → TreasuryTransaction → ApiResult DemoData J
  simulate_validation is_nan_date t =
      if not (Text.is_truthy t.id)
      then bad_request (codes "missing transaction id")
      else if not (Text.is_truthy t.institution_id)
      then bad_request (codes "missing institution id")
      else if le t.fiscal_year (of_ℕ 0) || is_nan t.fiscal_year
      then bad_request (codes "invalid fiscal year")
      else if le t.amount_minor (of_ℕ 0) || is_nan t.amount_minor
      then bad_request (codes "invalid amount")
      else if not (is_currency t.currency)
      then bad_request (codes "invalid currency")
      else if not (Text.is_truthy t.description)
      then bad_request (codes "missing description")
      else if not (Text.is_truthy t.transaction_date)
      then bad_request (codes "missing transaction date")
      else if is_nan_date t.transaction_date
      then bad_request (codes "invalid transaction date")
      else validation_response t

  -- The reading of the reply in `postTransaction`.
  unfoldable pub read_post : PostReply J → ApiResult DemoData J
  unfolding post_error
  read_post (unreachable reason) = error 0 not_reachable
  read_post (response status malformed) =
      if is_ok status
      then if status == 204 then ok status no_data else error 0 not_reachable
      else error status (post_error {J = J} status malformed)
  read_post (response status (json value message)) =
      if is_ok status
      then if status == 204 then ok status no_data else ok status (body_data value)
      else error status (post_error status (json value message))

  unfoldable pub post_transaction :
      Env
      → Text
      → Text
      → (PostRequest TreasuryTransaction → PostReply J)
      → TreasuryTransaction
      → ApiResult DemoData J
  unfolding read_post
  post_transaction env base path fetch t = read_post (fetch (post_request env base path t))

  unfoldable pub validate_transaction :
      (Text → Bool)
      → Env
      → (PostRequest TreasuryTransaction → PostReply J)
      → TreasuryTransaction
      → ApiResult DemoData J
  validate_transaction is_nan_date env fetch t = elim env.api_base_url [
    | none ↦ simulate_validation is_nan_date t
    | some base ↦
        if Text.is_truthy base
        then post_transaction env base (codes "/v1/transactions/validate") fetch t
        else simulate_validation is_nan_date t
  ]

  -- `validation.ok ? { ok: true, status: 201, data: { id: transaction.id } } : validation`
  unfoldable pub simulate_creation : (Text → Bool) → TreasuryTransaction → ApiResult DemoData J
  simulate_creation is_nan_date t = elim (simulate_validation is_nan_date t) [
    | ok status value ↦ ok 201 (demo_data (created t.id))
    | error status message ↦ error status message
  ]

  unfoldable pub create_transaction :
      (Text → Bool)
      → Env
      → (PostRequest TreasuryTransaction → PostReply J)
      → TreasuryTransaction
      → ApiResult DemoData J
  unfolding simulate_creation
  create_transaction is_nan_date env fetch t = elim env.api_base_url [
    | none ↦ simulate_creation is_nan_date t
    | some base ↦
        if Text.is_truthy base
        then post_transaction env base (codes "/v1/transactions") fetch t
        else simulate_creation is_nan_date t
  ]

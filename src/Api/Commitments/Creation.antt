-- ===== src/Api/Commitments/Creation.antt =====
-- apps/web/src/api.ts: `CommitmentInput` and `createCommitment`, which changes the demo mode's rows.
pub mod Laws
use opentreasury.Prelude.{ℕ, Bool, List, [], ◌∷◌, Option, none, some, if◌then◌else◌}
use opentreasury.Prelude.Text.{Text, codes, is_truthy}
use opentreasury.Platform.Number.{Number, of_ℕ}
use opentreasury.Api.Request.{Env, is_ok, message_error}
use opentreasury.Api.Post.{PostRequest, post_request, PostReply, unreachable, response, post_error}
use opentreasury.Api.Commitments.{Commitment, CommitmentStatus, opened}

pub record CommitmentInput : Type 0 where
  pub id : Text
  pub institution_id : Text
  pub fiscal_year : Number
  pub account_code : Text
  pub description : Text
  pub amount_minor : Number
  pub currency : Text
  pub committed_date : Text

pub data CreateResult : Type 0 where
  ok : CreateResult
  error : Text → CreateResult

-- The row that is added: open, with nothing settled.
unfoldable pub new_commitment : CommitmentInput → Commitment
new_commitment input = record {
  id = input.id;
  institution_id = input.institution_id;
  fiscal_year = input.fiscal_year;
  account_code = input.account_code;
  description = input.description;
  amount_minor = input.amount_minor;
  currency = input.currency;
  committed_date = input.committed_date;
  status = opened;
  settled_amount_minor = of_ℕ 0;
  remaining_amount_minor = input.amount_minor;
}

module _ {ℓ} {J : Type ℓ} where
  -- The reading of the reply.
  unfoldable pub read_creation : PostReply J → CreateResult
  unfolding post_error message_error
  read_creation (unreachable reason) = error (message_error reason)
  read_creation (response status payload) =
      if is_ok status then ok else error (post_error status payload)

  -- The rows before and after the call, and its result. `unshift` puts the row in front.
  unfoldable pub create_commitment :
      Env
      → (PostRequest CommitmentInput → PostReply J)
      → CommitmentInput
      → List Commitment
      → List Commitment × CreateResult
  unfolding new_commitment read_creation
  create_commitment env fetch input store = elim env.api_base_url [
    | none ↦ (new_commitment input ∷ store, ok)
    | some base ↦
        if is_truthy base
        then (store, read_creation (fetch (post_request env base (codes "/v1/commitments") input)))
        else (new_commitment input ∷ store, ok)
  ]

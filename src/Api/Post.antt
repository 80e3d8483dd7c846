-- ===== src/Api/Post.antt =====
-- apps/web/src/api.ts: `ApiResult`, and what its functions that send a body have in common.
use opentreasury.Prelude.{ℕ, List, ◌∷◌, ◌++◌, Option, none, some}
use opentreasury.Prelude.Text.{Text, codes}
use opentreasury.Api.Request.{Env, auth_headers, status_text}

-- A request with a body. `JSON.stringify` writes the body; here it is the value that is sent.
pub record PostRequest {ℓ} (B : Type ℓ) : Type ℓ where
  pub url : Text
  pub headers : List (Text × Text)
  pub body : B

unfoldable pub post_request {ℓ} : {B : Type ℓ} → Env → Text → Text → B → PostRequest B
unfolding auth_headers
post_request env base path body = record {
  url = base ++ path;
  headers = (codes "Content-Type", codes "application/json") ∷ auth_headers env.token;
  body = body;
}

-- What the reply to it holds: a body that is no JSON, or a JSON value (of a type `J` that the
-- client does not look into) with the text of its field `error`, if it has one.
pub data PostPayload {ℓ} (J : Type ℓ) : Type ℓ where
  malformed : PostPayload J
  json : J → Option Text → PostPayload J

pub data PostReply {ℓ} (J : Type ℓ) : Type ℓ where
  unreachable : Option Text → PostReply J
  response : ℕ → PostPayload J → PostReply J

-- `D` is the type of the data that the demo mode answers with.
pub data ResultData {ℓ κ} (D : Type ℓ) (J : Type κ) : Type (ℓ ⊔ κ) where
  no_data : ResultData D J
  demo_data : D → ResultData D J
  body_data : J → ResultData D J

pub data ApiResult {ℓ κ} (D : Type ℓ) (J : Type κ) : Type (ℓ ⊔ κ) where
  ok : ℕ → ResultData D J → ApiResult D J
  error : ℕ → Text → ApiResult D J

-- `body?.error ?? ...`, where a body that is no JSON is `undefined`.
unfoldable pub post_error {ℓ} : {J : Type ℓ} → ℕ → PostPayload J → Text
unfolding status_text
post_error status malformed = status_text status
post_error status (json value none) = status_text status
post_error status (json value (some message)) = message

-- ===== src/Api/Request.antt =====
-- apps/web/src/api.ts: what its functions have in common, the request headers, the error text of
-- a refused request, and the reading of a list reply. `fetch` is a parameter: a function from the
-- request to what the browser gives back.
use opentreasury.Prelude.{
  ℕ, Bool, true, false, ◌&&◌, List, [], ◌∷◌, ◌++◌, Option, none, some, if◌then◌else◌, leb, length,
  or_else,
}
use opentreasury.Prelude.Text.{Text, codes, is_truthy}
use opentreasury.Platform.Decimal.{show_ℕ}
use opentreasury.Api.Page.{PageInfo, Paging, fallback_page_info}

-- The settings of the build (`VITE_CORE_API_URL`) and `currentAccessToken()`.
pub record Env : Type 0 where
  pub api_base_url : Option Text
  pub token : Option Text

pub record Request : Type 0 where
  pub url : Text
  pub method : Text
  pub headers : List (Text × Text)

-- What `response.json()` gives: a rejection (with the message of the error, if it is one), `null`
-- (with the message of the engine's TypeError for a field of `null`), or a value with the fields
-- that a list reply may have.
pub data Payload {ℓ} (A : Type ℓ) : Type ℓ where
  malformed : Option Text → Payload A
  null_body : Text → Payload A
  object : Option (List A) → Option PageInfo → Option Text → Payload A

-- What `fetch` gives: a rejection, or a response with its status.
pub data Reply {ℓ} (A : Type ℓ) : Type ℓ where
  unreachable : Option Text → Reply A
  response : ℕ → Payload A → Reply A

pub data ListResult {ℓ} (A : Type ℓ) : Type ℓ where
  listed : List A → PageInfo → ListResult A
  failed : Text → ListResult A

-- `!apiBaseUrl`: the demo mode.
abbrev pub is_demo : Option Text → Bool
is_demo none = true
is_demo (some url) = if is_truthy url then false else true

unfoldable pub auth_headers : Option Text → List (Text × Text)
auth_headers none = []
auth_headers (some token) =
    if is_truthy token then (codes "Authorization", codes "Bearer " ++ token) ∷ [] else []

-- `response.ok`.
abbrev pub is_ok : ℕ → Bool
is_ok status = leb 200 status && leb status 299

unfoldable pub status_text : ℕ → Text
status_text status = codes "Request failed with status " ++ show_ℕ status

-- `body?.error ?? ...`, where a body that cannot be read is `undefined`.
unfoldable pub error_text {ℓ} : {A : Type ℓ} → ℕ → Payload A → Text
unfolding status_text
error_text status (object rows pagination (some error)) = error
error_text status (object rows pagination none) = status_text status
error_text status (malformed reason) = status_text status
error_text status (null_body reason) = status_text status

abbrev pub not_reachable : Text
not_reachable = codes "Core API is not reachable"

abbrev pub row_count {ℓ} : {A : Type ℓ} → Option (List A) → ℕ
row_count none = 0
row_count (some rows) = length rows

-- The reading of a list reply. The last argument is the text of the `catch` clause.
unfoldable pub read_list {ℓ} : {A : Type ℓ} → Paging → Reply A → (Option Text → Text) → ListResult A
unfolding error_text
read_list filter (unreachable reason) caught = failed (caught reason)
read_list filter (response status (object rows pagination error)) caught =
    if is_ok status
    then listed (or_else rows []) (or_else pagination (fallback_page_info filter (row_count rows)))
    else failed (error_text status (object rows pagination error))
read_list filter (response status (malformed reason)) caught =
    if is_ok status then failed (caught reason) else failed (status_text status)
read_list filter (response status (null_body reason)) caught =
    if is_ok status then failed (caught (some reason)) else failed (status_text status)

-- `catch { return { ok: false, error: "Core API is not reachable" } }`.
unfoldable pub fixed_error : Option Text → Text
fixed_error reason = not_reachable

-- `catch (error) { ... error instanceof Error ? error.message : "Network error" }`.
unfoldable pub message_error : Option Text → Text
message_error reason = or_else reason (codes "Network error")

-- A GET of the API with the token's header.
unfoldable pub get_request : Env → Text → Text → Request
unfolding auth_headers
get_request env base path = record {
  url = base ++ path;
  method = codes "GET";
  headers = auth_headers env.token;
}

-- A list function: the demo mode's rows, or the reply of the API.
unfoldable pub run_list {ℓ} :
    {A : Type ℓ}
    → Env
    → ListResult A
    → Text
    → Paging
    → (Option Text → Text)
    → (Request → Reply A)
    → ListResult A
unfolding read_list get_request
run_list env demo path filter caught fetch = elim env.api_base_url [
  | none ↦ demo
  | some base ↦
      if is_truthy base then read_list filter (fetch (get_request env base path)) caught else demo
]

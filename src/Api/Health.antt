-- ===== src/Api/Health.antt =====
-- apps/web/src/api.ts and health.ts: the health check and its display. The clock is a parameter:
-- `started` and `finished` are what `Date.now()` gives before and after the request, `now` is
-- `new Date().toISOString()` at the end. `to_iso` is `new Date(value).toISOString()`.
pub mod Laws
use opentreasury.Prelude.{
  ℕ, Bool, true, false, List, [], ◌∷◌, ◌++◌, Option, none, some, if◌then◌else◌,
}
use opentreasury.Prelude.Text.{Text, codes, is_truthy}
use opentreasury.Platform.Number.{Number, sub, of_ℕ}
use opentreasury.Platform.Decimal.{show, show_ℕ}
use opentreasury.Platform.Slice.{slice}
use opentreasury.Api.Request.{Env, Request, get_request, is_ok, not_reachable}

pub data HealthCheckResult : Type 0 where
  healthy : (response_time_ms : Number) (checked_at : Text) → HealthCheckResult
  unhealthy : (error checked_at : Text) → HealthCheckResult

-- What `fetch` gives, as far as the check looks at it.
pub data HealthReply : Type 0 where
  unreachable : HealthReply
  response : ℕ → HealthReply

unfoldable pub read_health : Number → Number → Text → HealthReply → HealthCheckResult
read_health started finished now unreachable = unhealthy not_reachable now
read_health started finished now (response status) =
    if is_ok status
    then healthy (sub finished started) now
    else unhealthy (codes "Health check failed with status " ++ show_ℕ status) now

unfoldable pub check_core_api_health :
    Env → Number → Number → Text → (Request → HealthReply) → HealthCheckResult
unfolding read_health
check_core_api_health env started finished now fetch = elim env.api_base_url [
  | none ↦ healthy (of_ℕ 0) now
  | some base ↦
      if is_truthy base
      then read_health started finished now (fetch (get_request env base (codes "/healthz")))
      else healthy (of_ℕ 0) now
]

pub data Tone : Type 0 where
  checking healthy unreachable : Tone

pub record HealthDisplay : Type 0 where
  pub label : Text
  pub tone : Tone
  pub response_time : Text
  pub checked_at : Text

unfoldable pub format_checked_at : (Text → Text) → Text → Text
format_checked_at to_iso value = slice (to_iso value) (of_ℕ 11) (of_ℕ 19)

unfoldable pub to_health_display : (Text → Text) → Option HealthCheckResult → HealthDisplay
unfolding format_checked_at
to_health_display to_iso none = record {
  label = codes "Checking";
  tone = checking;
  response_time = codes "n/a";
  checked_at = codes "pending";
}
to_health_display to_iso (some (healthy response_time_ms checked_at)) = record {
  label = codes "Healthy";
  tone = healthy;
  response_time = show response_time_ms ++ codes " ms";
  checked_at = format_checked_at to_iso checked_at;
}
to_health_display to_iso (some (unhealthy error checked_at)) = record {
  label = codes "Unreachable";
  tone = unreachable;
  response_time = codes "n/a";
  checked_at = format_checked_at to_iso checked_at;
}

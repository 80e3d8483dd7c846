-- ===== src/Api/Health/Laws.antt =====
-- When the health check of a configured server is shown as healthy.
use opentreasury.Prelude.{ℕ, ◌≡◌, ◌≤◌, ◌↔◌, refl, Bool-cases, true, some, arith, inl, inr}
use opentreasury.Prelude.Text.{Text, codes, is_truthy}
use opentreasury.Platform.Number.{Number}
use opentreasury.Api.Request.{Env, Request, get_request, is_ok}
use opentreasury.Api.Health.{
  HealthReply, response, unreachable, read_health, check_core_api_health, to_health_display,
  healthy,
}

-- With a configured server the check is shown as healthy exactly where the request to `/healthz`
-- is answered with a 2xx status.
pub to_health_display-check_core_api_health :
    (env : Env) (base : Text) (started finished : Number) (now : Text)
    (fetch : Request → HealthReply) (to_iso : Text → Text)
    → env.api_base_url ≡ some base
    → is_truthy base ≡ true
    → ((to_health_display to_iso (some (check_core_api_health env started finished now fetch))).tone
        ≡ healthy)
      ↔ ((status : ℕ) × (fetch (get_request env base (codes "/healthz")) ≡ response status)
          × (200 ≤ status)
          × (status ≤ 299))
unfolding check_core_api_health to_health_display read_health get_request
to_health_display-check_core_api_health env base started finished now fetch to_iso e t =
    rw (e, t) (go (fetch (get_request env base (codes "/healthz"))))
  where
    go :
        (r : HealthReply)
        → ((to_health_display to_iso (some (read_health started finished now r))).tone ≡ healthy)
          ↔ ((status : ℕ) × (r ≡ response status) × (200 ≤ status) × (status ≤ 299))
    go unreachable = (λ h. cc, λ (status, e, lo, hi). cc)
    go (response status) = elim (Bool-cases (is_ok status)) [
      | inl e ↦ rw e (λ h. (status, refl, ground arith, ground arith), λ p. refl)
      | inr e ↦ rw e (λ h. cc, λ (other, r, lo, hi). ground arith)
    ]

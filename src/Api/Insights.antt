-- ===== src/Api/Insights.antt =====
-- apps/web/src/api.ts: the insights, that is `getAnomalies` and the request and the reply of
-- `getForecast`. A number with a fraction is a Double.
use opentreasury.Prelude.{ℕ, List, [], ◌∷◌, ◌++◌, Option, none, some, if◌then◌else◌, length, false}
use opentreasury.Prelude.Text.{Text, codes, is_truthy}
use opentreasury.Platform.Number.{Number, of_ℕ}
use opentreasury.Platform.Decimal.{show}
use opentreasury.Platform.Double.{Double, round}
use opentreasury.Platform.Query.{Query, set}
use opentreasury.Platform.Percent.{to_string}
use opentreasury.Api.Page.{PageInfo}
use opentreasury.Api.Params.{given, set_given}
use opentreasury.Api.Request.{Env, Request, get_request, is_ok, status_text, message_error}

pub record MonthlyFlow : Type 0 where
  pub period : Text
  pub total_minor : Double

pub record ForecastPoint : Type 0 where
  pub period : Text
  pub projected_minor : Double
  pub low_minor : Double
  pub high_minor : Double

pub record Forecast : Type 0 where
  pub history : List MonthlyFlow
  pub forecast : List ForecastPoint
  pub method : Text

pub record Anomaly : Type 0 where
  pub entry_id : Text
  pub institution_id : Text
  pub account_code : Text
  pub amount_minor : Number
  pub effective_date : Text
  pub typical_minor : Number
  pub score : Double

pub record Anomalies : Type 0 where
  pub anomalies : List Anomaly
  pub method : Text
  pub pagination : PageInfo

pub data InsightResult {ℓ} (A : Type ℓ) : Type ℓ where
  ok : A → InsightResult A
  error : Text → InsightResult A

-- What `response.json()` gives: a rejection, or a body, which the client takes to be of its type,
-- with the text of its field `error`, if it has one.
pub data InsightPayload {ℓ} (A : Type ℓ) : Type ℓ where
  malformed : Option Text → InsightPayload A
  object : (body : A) (error : Option Text) → InsightPayload A

pub data InsightReply {ℓ} (A : Type ℓ) : Type ℓ where
  unreachable : Option Text → InsightReply A
  response : ℕ → InsightPayload A → InsightReply A

unfoldable pub refusal {ℓ} : {A : Type ℓ} → ℕ → InsightPayload A → Text
unfolding status_text
refusal status (malformed reason) = status_text status
refusal status (object body none) = status_text status
refusal status (object body (some message)) = message

unfoldable pub read_insight {ℓ} : {A : Type ℓ} → InsightReply A → InsightResult A
unfolding refusal message_error
read_insight (unreachable reason) = error (message_error reason)
read_insight (response status (malformed reason)) =
    if is_ok status then error (message_error reason) else error (status_text status)
read_insight (response status (object body message)) =
    if is_ok status then ok body else error (refusal status (object body message))

unfoldable pub forecast_query : Option Text → Number → Query
forecast_query institution_id horizon =
    set (codes "horizon") (show horizon)
      (set_given (codes "institutionId") (given institution_id) [])

-- `getForecast` where the API's URL is set: the request, and the reading of the reply.
unfoldable pub fetch_forecast :
    Env → Text → (Request → InsightReply Forecast) → Option Text → Number → InsightResult Forecast
unfolding forecast_query read_insight
fetch_forecast env base fetch institution_id horizon = read_insight (
    fetch (
      get_request env base
        (codes "/v1/insights/forecast?" ++ to_string (forecast_query institution_id horizon))))

abbrev pub simulated_anomalies : List Anomaly
simulated_anomalies =
    record {
      entry_id = codes "itmis-PAY-2026-1042";
      institution_id = codes "minfin";
      account_code = codes "22";
      amount_minor = of_ℕ 48120000;
      effective_date = codes "2026-07-02";
      typical_minor = of_ℕ 1480000;
      score = round false 214 10;
    }
    ∷ []

unfoldable pub simulate_anomalies : Number → Number → InsightResult Anomalies
simulate_anomalies page page_size = ok (record {
  anomalies = simulated_anomalies;
  method = codes "modified z-score per account (median/MAD), threshold 3.5, minimum 5 observations";
  pagination = record {
    page = page;
    page_size = page_size;
    total = of_ℕ (length simulated_anomalies);
  };
})

unfoldable pub anomalies_query : Option Text → Number → Number → Query
anomalies_query institution_id page page_size =
    let q = set_given (codes "institutionId") (given institution_id) [] in
    set (codes "pageSize") (show page_size) (set (codes "page") (show page) q)

unfoldable pub get_anomalies :
    Env
    → (Request → InsightReply Anomalies)
    → Option Text
    → Number
    → Number
    → InsightResult Anomalies
unfolding anomalies_query read_insight simulate_anomalies
get_anomalies env fetch institution_id page page_size = elim env.api_base_url [
  | none ↦ simulate_anomalies page page_size
  | some base ↦
      if is_truthy base
      then read_insight (
          fetch (
            get_request env base (
              codes "/v1/insights/anomalies?"
              ++ to_string (anomalies_query institution_id page page_size))))
      else simulate_anomalies page page_size
]

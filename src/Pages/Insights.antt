-- ===== src/Pages/Insights.antt =====
-- apps/web/src/routes/insights.tsx: the chart of the forecast, and the table of anomalies. The
-- print of a score with one digit, `toFixed(1)`, is the parameter `to_fixed`.
pub mod Laws
use opentreasury.Prelude.{
  Bool, List, [], ◌∷◌, ◌++◌, map, Option, none, some, if◌then◌else◌, length, ◌==◌,
}
use opentreasury.Prelude.Text.{Text, codes, is_truthy}
use opentreasury.Platform.Double.{Double, over}
use opentreasury.Platform.Number.{of_ℕ}
use opentreasury.Platform.Query.{Query}
use opentreasury.Api.Insights.{
  MonthlyFlow, ForecastPoint, Forecast, Anomaly, Anomalies, InsightResult, ok, error,
}
use opentreasury.Api.Institutions.{Institution}
use opentreasury.Api.Page.{PageInfo}
use opentreasury.Api.Request.{ListResult, listed, failed}
use opentreasury.Api.Transactions.Rows.{format_money}
use opentreasury.Table.Url.{page_of, page_size_of}
use opentreasury.Table.View.{Column, Fetched, data_table, table_props}
use opentreasury.Pages.{Host, PageView, filter_of, institution_options, select_of}

unfoldable pub anomaly_columns : Host → (Double → Text) → List (Column Anomaly)
anomaly_columns host to_fixed =
    record { header = codes "Date"; cell = λ a. a.effective_date ∷ [] }
    ∷ record { header = codes "Entry"; cell = λ a. a.entry_id ∷ [] }
    ∷ record { header = codes "Institution"; cell = λ a. a.institution_id ∷ [] }
    ∷ record { header = codes "Account"; cell = λ a. a.account_code ∷ [] }
    ∷ record {
      header = codes "Amount";
      cell = λ a. format_money host.to_locale (codes "USD") a.amount_minor ∷ [];
    }
    ∷ record {
      header = codes "Typical for account";
      cell = λ a. format_money host.to_locale (codes "USD") a.typical_minor ∷ [];
    }
    ∷ record { header = codes "Score"; cell = λ a. to_fixed a.score ∷ [] }
    ∷ []

-- A point of the chart; none stands for `null`.
pub record ChartPoint : Type 0 where
  pub period : Text
  pub actual : Option Double
  pub projected : Option Double
  pub band : Option (Double × Double)

unfoldable pub history_point : MonthlyFlow → ChartPoint
history_point month = record {
  period = month.period;
  actual = some (over month.total_minor 100);
  projected = none;
  band = none;
}

unfoldable pub projection_point : ForecastPoint → ChartPoint
projection_point point = record {
  period = point.period;
  actual = none;
  projected = some (over point.projected_minor 100);
  band = some (over point.low_minor 100, over point.high_minor 100);
}

-- `history[history.length - 1].projected = history[history.length - 1].actual`
unfoldable pub join_last : List ChartPoint → List ChartPoint
join_last [] = []
join_last (last ∷ []) = record last { projected = last.actual } ∷ []
join_last (point ∷ next ∷ points) = point ∷ join_last (next ∷ points)

unfoldable pub chart_data : Option (InsightResult Forecast) → List ChartPoint
unfolding history_point projection_point join_last
chart_data none = []
chart_data (some (error reason)) = []
chart_data (some (ok result)) =
    join_last (map history_point result.history) ++ map projection_point result.forecast

pub data Chart : Type 0 where
  chart_skeleton : Chart
  no_history : Text → Chart
  area : List ChartPoint → Chart

unfoldable pub chart_of : Host → Bool → Option (InsightResult Forecast) → Chart
unfolding chart_data
chart_of host is_pending forecast =
    if is_pending
    then chart_skeleton
    else if length (chart_data forecast) == 0
    then no_history (host.translate (codes "insights.noHistory"))
    else area (chart_data forecast)

-- The result of the anomalies as that of a list.
unfoldable pub anomalies_result : Option (InsightResult Anomalies) → Option (ListResult Anomaly)
anomalies_result none = none
anomalies_result (some (error reason)) = some (failed reason)
anomalies_result (some (ok result)) = some (listed result.anomalies result.pagination)

-- `filters.institutionId || undefined`
abbrev pub institution_of : Option Text → Option Text
institution_of none = none
institution_of (some id) = if is_truthy id then some id else none

unfoldable pub forecast_caption : Host → Option (InsightResult Forecast) → Text
forecast_caption host none = host.translate (codes "insights.forecastDescription")
forecast_caption host (some (error reason)) = host.translate (codes "insights.forecastDescription")
forecast_caption host (some (ok result)) = result.method

unfoldable pub insights_page :
    Host
    → (Double → Text)
    → Option (ListResult Institution)
    → Bool
    → Option (InsightResult Anomalies)
    → Query
    → PageView
unfolding anomalies_result
insights_page host to_fixed institutions is_pending anomalies q = record {
  title = host.translate (codes "insights.title");
  description = host.translate (codes "insights.description");
  controls =
      select_of (host.translate (codes "insights.institution")) (codes "institutionId")
        (institution_options institutions) q
      ∷ [];
  table = data_table (
      table_props (anomaly_columns host to_fixed)
        (record { result = anomalies_result anomalies; is_pending = is_pending })
        (page_of host.integer_of q) (page_size_of host.integer_of q)
        (host.translate (codes "insights.noAnomalies")));
}

-- ===== src/Pages/Insights/Laws.antt =====
-- The chart of the forecast.
use opentreasury.Prelude.{◌≡◌, refl, ap, List, [], ◌∷◌, ◌++◌, map, some, append_assoc}
use opentreasury.Platform.Double.{over}
use opentreasury.Api.Insights.{MonthlyFlow, Forecast, ok}
use opentreasury.Pages.Insights.{ChartPoint, history_point, projection_point, join_last, chart_data}

map_append : {A B : Type 0} (f : A → B) (xs ys : List A) → map f (xs ++ ys) ≡ map f xs ++ map f ys
map_append f [] ys = refl
map_append f (x ∷ xs) ys = ap (λ zs. f x ∷ zs) (map_append f xs ys)

join_last-append :
    (points : List ChartPoint) (last : ChartPoint)
    → join_last (points ++ last ∷ []) ≡ points ++ record last { projected = last.actual } ∷ []
unfolding join_last
join_last-append [] last = refl
join_last-append (p ∷ []) last = refl
join_last-append (p ∷ q ∷ points) last = ap (λ ps. p ∷ ps) (join_last-append (q ∷ points) last)

-- Where there is a history, the chart shows its months with their actual totals and no projection
-- up to the last one, in which the line of the projection starts from the actual total; then come
-- the points of the forecast, in order.
pub chart_data-history :
    (months : List MonthlyFlow) (last : MonthlyFlow) (result : Forecast)
    → result.history ≡ months ++ last ∷ []
    → chart_data (some (ok result))
      ≡ map history_point months
        ++ (record (history_point last) { projected = some (over last.total_minor 100) }
            ∷ map projection_point result.forecast)
unfolding chart_data history_point
chart_data-history months last result e =
    rw
      (
        e,
        map_append history_point months (last ∷ []),
        join_last-append (map history_point months) (history_point last),
      )
      (append_assoc (map history_point months)
        (record (history_point last) { projected = some (over last.total_minor 100) } ∷ [])
        (map projection_point result.forecast))

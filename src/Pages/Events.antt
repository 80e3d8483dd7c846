-- ===== src/Pages/Events.antt =====
-- What a page asks the API for after an event of one of its controls. The router is the parameter
-- `commit`: the URL after the calls of `setSearchParams` with the given updates in one event.
-- React Router documents that the calls of one event do not queue: each update gets the query
-- that was rendered, and the last call is the one that stands.
use opentreasury.Prelude.{◌≡◌, ◌++◌, refl, ◌∙◌, false, List, [], ◌∷◌, Option, none, some}
use opentreasury.Prelude.Text.{Text, codes, same, same_refl}
use opentreasury.Platform.Number.{of_ℕ}
use opentreasury.Platform.Query.{Query}
use opentreasury.Table.Url.{is_reserved, set_filter}
use opentreasury.Table.Url.Laws.{given_value, set_filter_lem}
use opentreasury.Pages.{Host, filter_of, on_dates}
use opentreasury.Pages.Transactions.{api_filter}

pub other_filter :
    (key k : Text) (value : Option Text) (q : Query)
    → is_reserved key ≡ false
    → same key k ≡ false
    → filter_of k (set_filter key value q) ≡ filter_of k q
other_filter key k value q h e = (set_filter_lem (λ s. none) key k value q h).2 ∙ rw e refl

pub own_filter :
    (key : Text) (value : Option Text) (q : Query)
    → is_reserved key ≡ false
    → filter_of key (set_filter key value q) ≡ given_value value
own_filter key value q h =
    (set_filter_lem (λ s. none) key key value q h).2 ∙ rw (same_refl key) refl

api_filter-set_date_to :
    (host : Host) (value : Option Text) (q : Query)
    → api_filter host (set_filter (codes "dateTo") value q)
      ≡ record (api_filter host q) { date_to = given_value value; page = some (of_ℕ 1) }
unfolding api_filter same is_reserved
api_filter-set_date_to host value q =
    rw
      (
        other_filter (codes "dateTo") (codes "institutionId") value q refl refl,
        other_filter (codes "dateTo") (codes "fiscalYear") value q refl refl,
        other_filter (codes "dateTo") (codes "status") value q refl refl,
        other_filter (codes "dateTo") (codes "dateFrom") value q refl refl,
        own_filter (codes "dateTo") value q refl,
        other_filter (codes "dateTo") (codes "amountGte") value q refl refl,
        other_filter (codes "dateTo") (codes "amountLte") value q refl refl,
        (set_filter_lem host.integer_of (codes "dateTo") [] value q refl).0,
        (set_filter_lem host.integer_of (codes "dateTo") [] value q refl).1,
      )
      refl

module _ (host : Host) (commit : List (Query → Query) → Query → Query)
    (last_stands : (updates : List (Query → Query)) (update : Query → Query) (q : Query)
      → commit (updates ++ update ∷ []) q ≡ update q) where
  -- Where the last call of an event stands, choosing a range of dates asks for the first page up
  -- to the end of the range, while the start and every other filter that is asked for, with the
  -- page size, stay what they were before.
  pub dates-commit :
      (date_from date_to : Option Text) (q : Query)
      → api_filter host (commit (on_dates (date_from, date_to)) q)
        ≡ record (api_filter host q) { date_to = given_value date_to; page = some (of_ℕ 1) }
  unfolding on_dates
  dates-commit date_from date_to q =
      rw
        (last_stands (set_filter (codes "dateFrom") date_from ∷ [])
          (set_filter (codes "dateTo") date_to) q)
        (api_filter-set_date_to host date_to q)

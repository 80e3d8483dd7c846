-- ===== src/Shell/Routes.antt =====
-- apps/web/src/routes/index.tsx and components/app-shell.tsx: the routes, and the header of the
-- frame. The router matches a path as a whole against the routes; what no route takes is not found.
use opentreasury.Prelude.{
  Bool, true, false, List, [], ◌∷◌, ◌++◌, Option, none, some, if◌then◌else◌, ◌≡◌, refl,
}
use opentreasury.Prelude.Predicates.{All}
use opentreasury.Prelude.Text.{Text, codes, same, is_truthy}
use opentreasury.Shell.{items, app_sidebar}

pub data Route : Type 0 where
  overview transactions validation accounts journal commitments balances ingestion reconciliation
        insights institutions audit not_found :
      Route

-- The children of the frame, in order, less the last one, which takes every other path.
abbrev pub routes : List (Text × Route)
routes =
    (codes "/", overview)
    ∷ (codes "/transactions", transactions)
    ∷ (codes "/validation", validation)
    ∷ (codes "/accounts", accounts)
    ∷ (codes "/journal", journal)
    ∷ (codes "/commitments", commitments)
    ∷ (codes "/balances", balances)
    ∷ (codes "/ingestion", ingestion)
    ∷ (codes "/reconciliation", reconciliation)
    ∷ (codes "/insights", insights)
    ∷ (codes "/institutions", institutions)
    ∷ (codes "/audit", audit)
    ∷ []

unfoldable pub route_in : List (Text × Route) → Text → Route
route_in [] pathname = not_found
route_in ((path, route) ∷ others) pathname =
    if same path pathname then route else route_in others pathname

unfoldable pub route_of : Text → Route
unfolding route_in
route_of pathname = route_in routes pathname

abbrev pub title_keys : List (Text × Text)
title_keys =
    (codes "/", codes "nav.overview")
    ∷ (codes "/transactions", codes "nav.transactions")
    ∷ (codes "/validation", codes "nav.validation")
    ∷ (codes "/accounts", codes "nav.accounts")
    ∷ (codes "/journal", codes "nav.journal")
    ∷ (codes "/commitments", codes "nav.commitments")
    ∷ (codes "/balances", codes "nav.balances")
    ∷ (codes "/ingestion", codes "nav.ingestion")
    ∷ (codes "/reconciliation", codes "nav.reconciliation")
    ∷ (codes "/insights", codes "nav.insights")
    ∷ (codes "/institutions", codes "nav.institutions")
    ∷ (codes "/audit", codes "nav.audit")
    ∷ []

unfoldable pub title_key : List (Text × Text) → Text → Option Text
title_key [] pathname = none
title_key ((path, key) ∷ others) pathname =
    if same path pathname then some key else title_key others pathname

-- The last part of the breadcrumb.
unfoldable pub title : (Text → Text) → Text → Text
unfolding title_key
title translate pathname = elim (title_key title_keys pathname) [
  | none ↦ translate (codes "nav.product")
  | some key ↦ translate key
]

-- `import.meta.env.VITE_CORE_API_URL ? "LOCAL" : "DEMO"`
unfoldable pub environment : Option Text → Text
environment none = codes "DEMO"
environment (some url) = if is_truthy url then codes "LOCAL" else codes "DEMO"

-- The items of the navigation that are active.
active : List (Text × Text × Bool) → List (Text × Text)
active [] = []
active ((text, url, is_active) ∷ shown) =
    if is_active then (text, url) ∷ active shown else active shown

is_found : Route → Bool
is_found not_found = false
is_found _ = true

-- What holds of an item of the navigation: its link leads to a page, and there it is the one item
-- that is active, and the breadcrumb names it.
pub Leads : (Text → Text) → Text × Text → Type 0
Leads translate (key, url) =
    (is_found (route_of url) ≡ true)
    × (active (app_sidebar translate url) ≡ (translate (codes "nav." ++ key), url) ∷ [])
    × (title translate url ≡ translate (codes "nav." ++ key))

-- Every item of the navigation leads to a page on which it is the one active item and the
-- breadcrumb names it, in every translation.
pub Leads-items : (translate : Text → Text) → All (Leads translate) items
unfolding Leads route_of route_in is_found active app_sidebar title title_key same
Leads-items translate = (
  (refl, refl, refl),
  (
    (refl, refl, refl),
    (
      (refl, refl, refl),
      (
        (refl, refl, refl),
        (
          (refl, refl, refl),
          (
            (refl, refl, refl),
            (
              (refl, refl, refl),
              (
                (refl, refl, refl),
                (
                  (refl, refl, refl),
                  ((refl, refl, refl), ((refl, refl, refl), ((refl, refl, refl), tt))),
                ),
              ),
            ),
          ),
        ),
      ),
    ),
  ),
)

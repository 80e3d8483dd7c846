-- ===== src/Mobile/Laws.antt =====
-- What the public API receives.
use mathlib.Core.Path.{subst}
use opentreasury.Prelude.{
  drop, ap, true, false, or_else, ◌≡◌, refl, sym, ◌∙◌, Bool-cases, List, [], ◌∷◌, ◌++◌, Option,
  none, some, if◌then◌else◌, inl, inr, append_assoc, append-nil, arith,
}
use opentreasury.Prelude.Text.{Text, codes, same, is_truthy}
use opentreasury.Platform.Query.{Query, append}
use opentreasury.Platform.Percent.{to_string}
use opentreasury.Platform.Percent.Parse.{AllUnits}
use opentreasury.Api.Params.{with_query}
use opentreasury.Api.Params.Laws.{present, read_path, utf8_pairs, read_path-with_query}
use opentreasury.Platform.Decimal.{show}
use opentreasury.Platform.Number.{Number, nan, int, of_ℕ}
use opentreasury.Table.Url.Laws.{show-is_truthy}
use opentreasury.Mobile.{
  number_text, append_given, build_query, EntriesFilter, entries_params, journal_entries_path,
}

-- The parameters that are set and not empty, in order.
abbrev pub set_params : List (Text × Option Text) → Query
set_params [] = []
set_params ((k, none) ∷ ps) = set_params ps
set_params ((k, some v) ∷ ps) =
    let rest = set_params ps in if same v [] then rest else (k, v) ∷ rest

append_given-set_params :
    (q : Query) (ps : List (Text × Option Text)) → append_given q ps ≡ q ++ set_params ps
unfolding append_given append
append_given-set_params q [] = sym (append-nil q)
append_given-set_params q ((k, none) ∷ ps) = append_given-set_params q ps
append_given-set_params q ((k, some v) ∷ ps) = elim (Bool-cases (same v [])) [
  | inl e ↦ rw e (append_given-set_params q ps)
  | inr e ↦
      rw e (
        append_given-set_params (q ++ (k, v) ∷ []) ps
        ∙ append_assoc q ((k, v) ∷ []) (set_params ps))
]

build_query-with_query :
    (path : Text) (ps : List (Text × Option Text))
    → path ++ build_query ps ≡ with_query path (set_params ps)
unfolding build_query with_query
build_query-with_query path ps = rw (append_given-set_params [] ps) (go (to_string (set_params ps)))
  where
    go :
        (t : Text)
        → path ++ (if is_truthy t then b'?' ∷ t else [])
          ≡ (if is_truthy t then path ++ b'?' ∷ t else path)
    go [] = append-nil path
    go (c ∷ t) = refl

read_path-params :
    (filter : EntriesFilter)
    → AllUnits (set_params (entries_params filter))
    → read_path (journal_entries_path filter)
      ≡ (codes "/public/v1/journal-entries", utf8_pairs (set_params (entries_params filter)))
unfolding journal_entries_path
read_path-params filter u =
    rw (build_query-with_query (codes "/public/v1/journal-entries") (entries_params filter)) (
      read_path-with_query (codes "/public/v1/journal-entries") (set_params (entries_params filter))
        (ground arith) u)

-- A text that is given and not empty, and the text of a number that is given.
abbrev pub filled : Option Text → Option Text
filled none = none
filled (some []) = none
filled (some (c ∷ s)) = some (c ∷ s)

abbrev pub printed : Option Number → Option Text
printed none = none
printed (some n) = some (show n)

-- The fields of the filter by their names: the page, else the first; the page size, else 15; and
-- the institution and the year where they are given.
abbrev pub fields : EntriesFilter → List (Text × Option Text)
fields filter =
    (codes "page", some (show (or_else filter.page (of_ℕ 1))))
    ∷ (codes "pageSize", some (show (or_else filter.page_size (of_ℕ 15))))
    ∷ (codes "institutionId", filled filter.institution_id)
    ∷ (codes "fiscalYear", printed filter.fiscal_year)
    ∷ []

-- The text of a number is never empty.
show_set : (n : Number) → same (show n) [] ≡ false
show_set nan = unfold show same in refl
show_set (int z) = go (show (int z)) (show-is_truthy z)
  where
    go : (t : Text) → is_truthy t ≡ true → same t [] ≡ false
    go [] h = cc
    go (c ∷ t) h = unfold same in refl

set_params_text :
    (k : Text) (o : Option Text) (ps qs : List (Text × Option Text))
    → set_params ps ≡ present qs
    → set_params ((k, o) ∷ ps) ≡ present ((k, filled o) ∷ qs)
unfolding same
set_params_text k none ps qs e = e
set_params_text k (some []) ps qs e = e
set_params_text k (some (c ∷ s)) ps qs e = ap (λ q. (k, c ∷ s) ∷ q) e

set_params_number :
    (k : Text) (o : Option Number) (ps qs : List (Text × Option Text))
    → set_params ps ≡ present qs
    → set_params ((k, number_text o) ∷ ps) ≡ present ((k, printed o) ∷ qs)
set_params_number k none ps qs e = e
set_params_number k (some n) ps qs e = rw (show_set n) (ap (λ q. (k, show n) ∷ q) e)

set_params-fields :
    (filter : EntriesFilter) → set_params (entries_params filter) ≡ present (fields filter)
set_params-fields filter =
    let page = some (or_else filter.page (of_ℕ 1)) in
    let size = some (or_else filter.page_size (of_ℕ 15)) in
    let sent = entries_params filter in
    let stated = fields filter in
    set_params_number (codes "page") page (drop 1 sent) (drop 1 stated) (
      set_params_number (codes "pageSize") size (drop 2 sent) (drop 2 stated) (
        set_params_text (codes "institutionId") filter.institution_id (drop 3 sent) (drop 3 stated)
          (set_params_number (codes "fiscalYear") filter.fiscal_year [] [] refl)))

-- A server that splits the path of a request for public entries at `?` and decodes the query reads
-- the path of the endpoint, the page (1 where none is given), the page size (15 where none is
-- given), the institution where one is given that is not empty, and the fiscal year where one is
-- given, by their names and in this order.
pub read_path-public_entries :
    (filter : EntriesFilter)
    → AllUnits (present (fields filter))
    → read_path (journal_entries_path filter)
      ≡ (codes "/public/v1/journal-entries", utf8_pairs (present (fields filter)))
read_path-public_entries filter units =
    subst
      (λ q.
        read_path (journal_entries_path filter)
        ≡ (codes "/public/v1/journal-entries", utf8_pairs q))
      (set_params-fields filter)
      (read_path-params filter (subst AllUnits (sym (set_params-fields filter)) units))

-- ===== src/Api/Params/Laws.antt =====
-- The parameters that a builder sets, in order, and that a server reads them back from the path.
use opentreasury.Prelude.{
  ◌≡◌, refl, sym, ◌∙◌, Bool, true, false, not, ◌&&◌, List, [], ◌∷◌, ◌++◌, Option, none, some, arith,
  map, append_assoc, append-nil,
}
use opentreasury.Prelude.Predicates.{All}
use opentreasury.Prelude.Text.{Text, same}
use opentreasury.Platform.Query.{Query, set}
use opentreasury.Platform.Percent.{to_string, utf8}
use opentreasury.Platform.Percent.Parse.{
  Pairs, parse, parse-to_string, AllUnits, is_truthy-to_string, parse-nil,
}
use opentreasury.Prelude.Split.{cut, cut-append, cut-Lacks, Lacks}
use opentreasury.Api.Params.{set_given, with_query}

-- The parameters that are present, in order.
abbrev pub present : List (Text × Option Text) → Query
present [] = []
present ((k, none) ∷ ps) = present ps
present ((k, some v) ∷ ps) = (k, v) ∷ present ps

-- Setting them one after the other.
abbrev pub set_all : List (Text × Option Text) → Query → Query
set_all [] q = q
set_all ((k, o) ∷ ps) q = set_all ps (set_given k o q)

-- No pair of that name.
abbrev pub is_fresh : Text → Query → Bool
is_fresh k [] = true
is_fresh k ((j, v) ∷ q) = not (same j k) && is_fresh k q

abbrev pub distinct_from : Text → List (Text × Option Text) → Bool
distinct_from k [] = true
distinct_from k ((j, o) ∷ ps) = not (same k j) && distinct_from k ps

abbrev pub are_distinct : List (Text × Option Text) → Bool
are_distinct [] = true
are_distinct ((k, o) ∷ ps) = distinct_from k ps && are_distinct ps

set_fresh : (k v : Text) (q : Query) → is_fresh k q ≡ true → set k v q ≡ q ++ (k, v) ∷ []
unfolding set
set_fresh k v [] h = refl
set_fresh k v ((j, w) ∷ q) h = ground (arith, set_fresh k v q)

-- All names of the list are fresh for the query.
abbrev AllFresh : List (Text × Option Text) → Query → Type 0
AllFresh ps q = All (λ p. is_fresh p.0 q ≡ true) ps

is_fresh-append :
    (k j v : Text) (q : Query)
    → is_fresh k q ≡ true
    → same j k ≡ false
    → is_fresh k (q ++ (j, v) ∷ []) ≡ true
is_fresh-append k j v [] h e = ground arith
is_fresh-append k j v ((i, w) ∷ q) h e = ground (arith, is_fresh-append k j v q)

AllFresh-append :
    (ps : List (Text × Option Text)) (j v : Text) (q : Query)
    → AllFresh ps q
    → distinct_from j ps ≡ true
    → AllFresh ps (q ++ (j, v) ∷ [])
AllFresh-append [] j v q h d = tt
AllFresh-append ((k, o) ∷ ps) j v q (h, hs) d =
    (is_fresh-append k j v q h (ground arith), AllFresh-append ps j v q hs (ground arith))

set_all-append :
    (ps : List (Text × Option Text)) (q : Query)
    → are_distinct ps ≡ true
    → AllFresh ps q
    → set_all ps q ≡ q ++ present ps
set_all-append [] q d h = sym (append-nil q)
set_all-append ((k, none) ∷ ps) q d (h, hs) = set_all-append ps q (ground arith) hs
set_all-append ((k, some v) ∷ ps) q d (h, hs) = rw (set_fresh k v q h) (
    set_all-append ps (q ++ (k, v) ∷ []) (ground arith) (AllFresh-append ps k v q hs (ground arith))
    ∙ append_assoc q ((k, v) ∷ []) (present ps))

AllFresh-nil : (ps : List (Text × Option Text)) → AllFresh ps []
AllFresh-nil [] = tt
AllFresh-nil (p ∷ ps) = (refl, AllFresh-nil ps)

pub set_all-nil :
    (ps : List (Text × Option Text)) → are_distinct ps ≡ true → set_all ps [] ≡ present ps
set_all-nil ps d = set_all-append ps [] d (AllFresh-nil ps)

-- What a server reads from a path with a query: the path, and the pairs of the query.
pub read_path : Text → Text × Pairs
read_path s = let (path, query) = cut b'?' s in (path, parse query)

abbrev pub utf8_pairs : Query → Pairs
utf8_pairs = map (λ p. (utf8 p.0, utf8 p.1))

pub read_path-with_query :
    (path : Text) (q : Query)
    → Lacks b'?' path
    → AllUnits q
    → read_path (with_query path q) ≡ (path, utf8_pairs q)
unfolding read_path with_query
read_path-with_query path [] h u = unfold to_string in rw (cut-Lacks b'?' path h, parse-nil)
read_path-with_query path (p ∷ q) h u =
    rw (
      is_truthy-to_string p q,
      cut-append b'?' path (to_string (p ∷ q)) h,
      parse-to_string (p ∷ q) u,
    )

-- The same for a path that is built by setting parameters with distinct names.
pub read_path-set_all :
    (path : Text) (ps : List (Text × Option Text))
    → are_distinct ps ≡ true
    → Lacks b'?' path
    → AllUnits (present ps)
    → read_path (with_query path (set_all ps [])) ≡ (path, utf8_pairs (present ps))
read_path-set_all path ps d h u = rw (set_all-nil ps d) (read_path-with_query path (present ps) h u)

-- The same where the `?` is always written.
pub read_path-append_query :
    (path : Text) (ps : List (Text × Option Text))
    → are_distinct ps ≡ true
    → Lacks b'?' path
    → AllUnits (present ps)
    → read_path (path ++ b'?' ∷ to_string (set_all ps [])) ≡ (path, utf8_pairs (present ps))
unfolding read_path
read_path-append_query path ps d h u = rw (
  set_all-nil ps d,
  cut-append b'?' path (to_string (present ps)) h,
  parse-to_string (present ps) u,
)

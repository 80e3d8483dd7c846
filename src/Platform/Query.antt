-- ===== src/Platform/Query.antt =====
-- `URLSearchParams`: a list of pairs in order, in which a name may occur more than once.
use opentreasury.Prelude.{◌≡◌, refl, List, [], ◌∷◌, ◌++◌, Option, none, some, arith, if◌then◌else◌}
use opentreasury.Prelude.Text.{Text, same, same_iff}

abbrev pub Query : Type 0
Query = List (Text × Text)

-- `params.get(name)`: the first value.
unfoldable pub get : Text → Query → Option Text
get k [] = none
get k ((j, v) ∷ q) = if same j k then some v else get k q

-- `params.delete(name)`: every pair of that name.
unfoldable pub delete : Text → Query → Query
delete k [] = []
delete k ((j, v) ∷ q) = let rest = delete k q in if same j k then rest else (j, v) ∷ rest

-- `params.set(name, value)`: the first pair of that name is changed and the others go; without
-- one, a pair is appended.
unfoldable pub set : Text → Text → Query → Query
unfolding delete
set k v [] = (k, v) ∷ []
set k v ((j, w) ∷ q) = if same j k then (k, v) ∷ delete k q else (j, w) ∷ set k v q

-- `params.append(name, value)`.
unfoldable pub append : Text → Text → Query → Query
append k v q = q ++ (k, v) ∷ []

pub get-delete :
    (j k : Text) (q : Query) → get j (delete k q) ≡ (if same k j then none else get j q)
unfolding get delete
get-delete j k [] = ground arith
get-delete j k ((i, w) ∷ q) =
    ground (arith, same_iff k j, same_iff i k, same_iff i j, get-delete j k q)

pub get-set :
    (j k v : Text) (q : Query) → get j (set k v q) ≡ (if same k j then some v else get j q)
unfolding get set
get-set j k v [] = refl
get-set j k v ((i, w) ∷ q) =
    ground (arith, same_iff k j, same_iff i k, same_iff i j, get-set j k v q, get-delete j k q)

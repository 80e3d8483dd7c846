-- ===== src/Table/Url/Laws.antt =====
-- What the table reads from the URL after each change.
use opentreasury.Prelude.{
  ℕ, zero, suc, ◌≡◌, refl, sym, ◌∙◌, Bool, Bool-cases, true, false, ◌&&◌, [], ◌∷◌, Option, none,
  some, if◌then◌else◌, or_else, arith, inl, inr,
}
use opentreasury.Prelude.Int.{ℤ, pos, negsuc}
use opentreasury.Prelude.Text.{Text, same, same_iff, same_refl, is_truthy}
use opentreasury.Platform.Number.{int, le, eq, of_ℕ}
use opentreasury.Platform.Decimal.{show, show_ℕ, show_ℤ, value, value-show_ℕ}
use opentreasury.Platform.Query.{Query, get, delete, set, get-delete, get-set}
use opentreasury.Table.Url.{
  default_page_size, page_key, page_size_key, is_reserved, positive, positive_int, page_of,
  page_size_of, is_filter, collect, filters, set_filter, set_page, set_page_size,
}

-- The last value that a query has for a filter, `found` where it has none.
latest : Text → Option Text → Query → Option Text
latest k found [] = found
latest k found ((j, v) ∷ q) = latest k (if same j k && is_filter j v then some v else found) q

get-collect : (k : Text) (acc q : Query) → get k (collect acc q) ≡ latest k (get k acc) q
unfolding latest collect
get-collect k acc [] = refl
get-collect k acc ((j, v) ∷ q) = elim (Bool-cases (is_filter j v)) [
  | inl e ↦ rw (e, get-collect k (set j v acc) q, get-set k j v acc) (kept (same j k))
  | inr e ↦ rw (e, get-collect k acc q) (dropped (same j k))
]
  where
    kept :
        (b : Bool)
        → latest k (if b then some v else get k acc) q
          ≡ latest k (if b && true then some v else get k acc) q
    kept true = refl
    kept false = refl

    dropped :
        (b : Bool) → latest k (get k acc) q ≡ latest k (if b && false then some v else get k acc) q
    dropped true = refl
    dropped false = refl

latest-delete :
    (j k : Text) (found : Option Text) (q : Query)
    → latest k found (delete j q) ≡ (if same j k then found else latest k found q)
unfolding latest delete
latest-delete j k found [] = ground arith
latest-delete j k found ((i, w) ∷ q) =
    let used = if same i k && is_filter i w then some w else found in
    ground (
      arith,
      same_iff j k,
      same_iff i j,
      same_iff i k,
      latest-delete j k found q,
      latest-delete j k used q,
    )

latest-set :
    (j k v : Text) (found : Option Text) (q : Query)
    → is_filter j v ≡ true
    → latest k found (set j v q) ≡ (if same j k then some v else latest k found q)
unfolding latest set
latest-set j k v found [] h = ground arith
latest-set j k v found ((i, w) ∷ q) h =
    let used = if same i k && is_filter i w then some w else found in
    ground (
      arith,
      h,
      same_iff j k,
      same_iff i j,
      same_iff i k,
      latest-delete j k (some v) q,
      latest-delete j k found q,
      latest-set j k v used q h,
    )

get-filters : (k : Text) (q : Query) → get k (filters q) ≡ latest k none q
unfolding filters get
get-filters k q = get-collect k [] q

-- The pagination parameters are no filters.
latest_reserved :
    (k : Text) (found : Option Text) (q : Query) → is_reserved k ≡ true → latest k found q ≡ found
unfolding latest is_filter
latest_reserved k found [] h = refl
latest_reserved k found ((j, v) ∷ q) h =
    ground (arith, h, same_iff j k, latest_reserved k found q h)

latest-keep :
    (j k : Text) (found : Option Text) (q : Query)
    → is_reserved j ≡ true
    → latest k found (delete j q) ≡ latest k found q
latest-keep j k found q h =
    ground (arith, h, same_iff j k, latest-delete j k found q, latest_reserved k found q)

filter_of-delete :
    (j k : Text) (q : Query)
    → is_reserved j ≡ true
    → get k (filters (delete j q)) ≡ get k (filters q)
filter_of-delete j k q h =
    rw (get-filters k (delete j q), get-filters k q) (latest-keep j k none q h)

latest-set_reserved :
    (j k v : Text) (found : Option Text) (q : Query)
    → is_reserved j ≡ true
    → latest k found (set j v q) ≡ latest k found q
unfolding latest set is_filter
latest-set_reserved j k v found [] h = ground (arith, h)
latest-set_reserved j k v found ((i, w) ∷ q) h =
    let used = if same i k && is_filter i w then some w else found in
    ground (arith, h, same_iff i j, latest-keep j k found q h, latest-set_reserved j k v used q h)

filter_of-set :
    (j k v : Text) (q : Query)
    → is_reserved j ≡ true
    → get k (filters (set j v q)) ≡ get k (filters q)
filter_of-set j k v q h =
    rw (get-filters k (set j v q), get-filters k q) (latest-set_reserved j k v none q h)

reserved_keys :
    (is_reserved page_key ≡ true)
    × (is_reserved page_size_key ≡ true)
    × (same page_key page_size_key ≡ false)
    × (same page_size_key page_key ≡ false)
    × (same page_key page_key ≡ true)
    × (same page_size_key page_size_key ≡ true)
unfolding is_reserved same
reserved_keys = (refl, refl, refl, refl, refl, refl)

abbrev pub given_value : Option Text → Option Text
given_value none = none
given_value (some v) = if same v [] then none else some v

set_filter-filters :
    (key k : Text) (value : Option Text) (q : Query)
    → is_reserved key ≡ false
    → get k (filters (set_filter key value q))
      ≡ (if same key k then given_value value else get k (filters q))
unfolding set_filter
set_filter-filters key k none q h =
    rw (filter_of-delete page_key k (delete key q) reserved_keys.0)
      (rw (get-filters k (delete key q), get-filters k q) (latest-delete key k none q))
set_filter-filters key k (some v) q h = elim (Bool-cases (same v [])) [
  | inl e ↦
      rw (e, filter_of-delete page_key k (delete key q) reserved_keys.0)
        (rw (get-filters k (delete key q), get-filters k q) (latest-delete key k none q))
  | inr e ↦
      let filter : is_filter key v ≡ true = unfold is_filter in rw (h, e) refl in
      rw (e, filter_of-delete page_key k (set key v q) reserved_keys.0)
        (rw (get-filters k (set key v q), get-filters k q) (latest-set key k v none q filter))
]

set_filter-page_key :
    (key : Text) (value : Option Text) (q : Query) → get page_key (set_filter key value q) ≡ none
unfolding set_filter
set_filter-page_key key none q =
    ground (arith, reserved_keys, get-delete page_key page_key (delete key q))
set_filter-page_key key (some v) q = ground (
  arith,
  reserved_keys,
  get-delete page_key page_key (delete key q),
  get-delete page_key page_key (set key v q),
)

set_filter-page_size_key :
    (key : Text) (value : Option Text) (q : Query)
    → is_reserved key ≡ false
    → get page_size_key (set_filter key value q) ≡ get page_size_key q
unfolding set_filter is_reserved
set_filter-page_size_key key none q h = ground (
  arith,
  reserved_keys,
  get-delete page_size_key page_key (delete key q),
  get-delete page_size_key key q,
  h,
)
set_filter-page_size_key key (some v) q h = ground (
  arith,
  h,
  reserved_keys,
  get-delete page_size_key page_key (delete key q),
  get-delete page_size_key page_key (set key v q),
  get-delete page_size_key key q,
  get-set page_size_key key v q,
)

module _ (integer_of : Text → Option ℤ) where
  -- A change of a filter restarts at the first page, keeps the page size, and changes what the
  -- table reads for that filter alone: to the given value, or to nothing for none or an empty one.
  pub set_filter_lem :
      (key k : Text) (value : Option Text) (q : Query)
      → is_reserved key ≡ false
      → (page_of integer_of (set_filter key value q) ≡ 1)
        × (page_size_of integer_of (set_filter key value q) ≡ page_size_of integer_of q)
        × (get k (filters (set_filter key value q))
            ≡ (if same key k then given_value value else get k (filters q)))
  unfolding page_of page_size_of positive_int
  set_filter_lem key k value q h = (
    rw (set_filter-page_key key value q) refl,
    rw (set_filter-page_size_key key value q h) refl,
    set_filter-filters key k value q h,
  )

page_size_other : same page_key page_size_key ≡ false
page_size_other = reserved_keys.2

has_digits : (n : ℕ) (s : Text) → value 0 s ≡ suc n → is_truthy s ≡ true
has_digits n [] e = absurd (omega (arith, e))
has_digits n (c ∷ s) e = refl

pub show-is_truthy : (z : ℤ) → is_truthy (show (int z)) ≡ true
unfolding show show_ℤ
show-is_truthy (pos zero) = unfold show_ℕ in refl
show-is_truthy (pos (suc n)) = has_digits n (show_ℕ (suc n)) (value-show_ℕ (suc n))
show-is_truthy (negsuc n) = refl

get-delete_same : (k : Text) (q : Query) → get k (delete k q) ≡ none
get-delete_same k q = ground (arith, get-delete k k q, same_refl k)

get-set_same : (k v : Text) (q : Query) → get k (set k v q) ≡ some v
get-set_same k v q = ground (arith, get-set k k v q, same_refl k)

get-delete_other : (j k : Text) (q : Query) → same k j ≡ false → get j (delete k q) ≡ get j q
get-delete_other j k q h = ground (arith, get-delete j k q, h)

get-set_other : (j k v : Text) (q : Query) → same k j ≡ false → get j (set k v q) ≡ get j q
get-set_other j k v q h = ground (arith, get-set j k v q, h)

below_two : (z : ℤ) → le (int z) (of_ℕ 1) ≡ true → or_else (positive (some z)) 1 ≡ 1
below_two (pos zero) h = refl
below_two (pos (suc n)) h = ground (arith, h)
below_two (negsuc n) h = refl

fifteen :
    (z : ℤ)
    → eq (int z) (of_ℕ default_page_size) ≡ true
    → or_else (positive (some z)) default_page_size ≡ default_page_size
fifteen (pos zero) h = refl
fifteen (pos (suc n)) h = ground (arith, h)
fifteen (negsuc n) h = refl

module _ (integer_of : Text → Option ℤ) (reads : (z : ℤ) → integer_of (show (int z)) ≡ some z) where
  positive_int-show : (z : ℤ) → positive_int integer_of (some (show (int z))) ≡ positive (some z)
  unfolding positive_int
  positive_int-show z = rw (show-is_truthy z, reads z) refl

  -- Where a printed integer reads back, going to a page makes the table read that page, or the
  -- first one for a number below 1, and changes neither the page size nor any filter.
  pub set_page_lem :
      (z : ℤ) (k : Text) (q : Query)
      → (page_of integer_of (set_page (int z) q) ≡ or_else (positive (some z)) 1)
        × (page_size_of integer_of (set_page (int z) q) ≡ page_size_of integer_of q)
        × (get k (filters (set_page (int z) q)) ≡ get k (filters q))
  unfolding page_of page_size_of set_page
  set_page_lem z k q = elim (Bool-cases (le (int z) (of_ℕ 1))) [
    | inl e ↦ rw e (
      rw (get-delete_same page_key q) (sym (below_two z e)),
      rw (get-delete_other page_size_key page_key q page_size_other) refl,
      filter_of-delete page_key k q reserved_keys.0,
    )
    | inr e ↦ rw e (
      rw (get-set_same page_key (show (int z)) q, positive_int-show z) refl,
      rw (get-set_other page_size_key page_key (show (int z)) q page_size_other) refl,
      filter_of-set page_key k (show (int z)) q reserved_keys.0,
    )
  ]

  -- Where a printed integer reads back, a new page size restarts at the first page, makes the table
  -- read that size, or the default for a number below 1, and changes no filter.
  pub set_page_size_lem :
      (z : ℤ) (k : Text) (q : Query)
      → (page_of integer_of (set_page_size (int z) q) ≡ 1)
        × (page_size_of integer_of (set_page_size (int z) q)
            ≡ or_else (positive (some z)) default_page_size)
        × (get k (filters (set_page_size (int z) q)) ≡ get k (filters q))
  unfolding page_of page_size_of set_page_size
  set_page_size_lem z k q = elim (Bool-cases (eq (int z) (of_ℕ default_page_size))) [
    | inl e ↦
        let kept = delete page_size_key q in
        rw e (
          rw (get-delete_same page_key kept) refl,
          rw
              (
                get-delete_other page_size_key page_key kept page_size_other,
                get-delete_same page_size_key q,
              )
              (sym (fifteen z e)),
          filter_of-delete page_key k kept reserved_keys.0
              ∙ filter_of-delete page_size_key k q reserved_keys.1,
        )
    | inr e ↦
        let sized = set page_size_key (show (int z)) q in
        rw e (
          rw (get-delete_same page_key sized) refl,
          rw
              (
                get-delete_other page_size_key page_key sized page_size_other,
                get-set_same page_size_key (show (int z)) q,
                positive_int-show z,
              )
              refl,
          filter_of-delete page_key k sized reserved_keys.0
              ∙ filter_of-set page_size_key k (show (int z)) q reserved_keys.1,
        )
  ]

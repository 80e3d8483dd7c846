-- ===== src/Api/AuditEvents/Rows/Laws.antt =====
-- The audit feed stays short and free of duplicates.
use opentreasury.Prelude.{
  ℕ, ◌+◌, zero, suc, ◌≤◌, ◌≡◌, ◌≢◌, refl, ap, ◌∙◌, Bool, Bool-cases, false, not, List, [], ◌∷◌,
  filter, take, length, arith, length-take, inl, inr,
}
use opentreasury.Prelude.Text.{same, same_refl, same_iff}
use opentreasury.Prelude.Predicates.{All}
use opentreasury.Platform.Number.{of_ℕ}
use opentreasury.Platform.Slice.{slice, slice-pos}
use opentreasury.Api.AuditEvents.Rows.{AuditRow, prepend_audit_row}

abbrev pub others : AuditRow → List AuditRow → List AuditRow
others row rows = filter (λ current. not (same current.id row.id)) rows

-- No two rows have one id.
abbrev pub DistinctIds : List AuditRow → Type 0
DistinctIds [] = Unit
DistinctIds (r ∷ rs) = All (λ s. s.id ≢ r.id) rs × DistinctIds rs

prepend_take :
    (rows : List AuditRow) (row : AuditRow) (n : ℕ)
    → prepend_audit_row rows row (of_ℕ n) ≡ take n (row ∷ others row rows)
unfolding prepend_audit_row
prepend_take rows row n =
    let e : n ≡ 0 + n = omega arith in
    ap (λ k. slice (row ∷ others row rows) (of_ℕ 0) (of_ℕ k)) e
    ∙ slice-pos (row ∷ others row rows) 0 n

module _ {ℓ κ} {A : Type ℓ} (P : A → Type κ) where
  All-filter : (p : A → Bool) (xs : List A) → All P xs → All P (filter p xs)
  All-filter p [] h = tt
  All-filter p (x ∷ xs) (px, h) = elim (Bool-cases (p x)) [
    | inl e ↦ rw e (px, All-filter p xs h)
    | inr e ↦ rw e (All-filter p xs h)
  ]

  All-take : (n : ℕ) (xs : List A) → All P xs → All P (take n xs)
  All-take zero xs h = tt
  All-take (suc n) [] h = tt
  All-take (suc n) (x ∷ xs) (px, h) = (px, All-take n xs h)

DistinctIds-take : (n : ℕ) (rows : List AuditRow) → DistinctIds rows → DistinctIds (take n rows)
DistinctIds-take zero rows h = tt
DistinctIds-take (suc n) [] h = tt
DistinctIds-take (suc n) (r ∷ rs) (d, h) = (All-take _ n rs d, DistinctIds-take n rs h)

DistinctIds-others :
    (row : AuditRow) (rows : List AuditRow) → DistinctIds rows → DistinctIds (others row rows)
DistinctIds-others row [] h = tt
DistinctIds-others row (r ∷ rs) (d, h) = elim (Bool-cases (same r.id row.id)) [
  | inl e ↦ rw e (DistinctIds-others row rs h)
  | inr e ↦ rw e (All-filter _ _ rs d, DistinctIds-others row rs h)
]

All-others : (row : AuditRow) (rows : List AuditRow) → All (λ s. s.id ≢ row.id) (others row rows)
All-others row [] = tt
All-others row (r ∷ rs) = elim (Bool-cases (same r.id row.id)) [
  | inl e ↦ rw e (All-others row rs)
  | inr e ↦
      let differs : r.id ≢ row.id = ground (arith, same_iff r.id row.id) in
      rw e (differs, All-others row rs)
]

-- Where the ids of the feed are distinct, they are distinct after a row is put first, and the feed
-- is no longer than the limit.
pub prepend_audit_row-DistinctIds :
    (rows : List AuditRow) (row : AuditRow) (n : ℕ)
    → DistinctIds rows
    → DistinctIds (prepend_audit_row rows row (of_ℕ n))
      × (length (prepend_audit_row rows row (of_ℕ n)) ≤ n)
prepend_audit_row-DistinctIds rows row n h = rw (prepend_take rows row n) (
  DistinctIds-take n (row ∷ others row rows) (All-others row rows, DistinctIds-others row rows h),
  omega (arith, length-take n (row ∷ others row rows)),
)

others-All :
    (row : AuditRow) (rows : List AuditRow) → All (λ s. s.id ≢ row.id) rows → others row rows ≡ rows
others-All row [] h = refl
others-All row (r ∷ rs) (d, h) =
    let e : same r.id row.id ≡ false = ground (arith, same_iff r.id row.id) in
    rw e (ap (λ t. r ∷ t) (others-All row rs h))

-- An event that is delivered twice in a row leaves the feed as the first delivery left it, for any
-- limit of at least one row.
pub prepend_audit_row-prepend_audit_row :
    (rows : List AuditRow) (row : AuditRow) (n : ℕ)
    → prepend_audit_row (prepend_audit_row rows row (of_ℕ (suc n))) row (of_ℕ (suc n))
      ≡ prepend_audit_row rows row (of_ℕ (suc n))
prepend_audit_row-prepend_audit_row rows row n =
    let first = prepend_take rows row (suc n) in
    let kept =
      others-All row (take n (others row rows))
        (All-take _ n (others row rows) (All-others row rows)) in
    rw (first, prepend_take (row ∷ take n (others row rows)) row (suc n), same_refl row.id, kept)
      (ap (λ t. row ∷ t) (take-take n (others row rows)))
  where
    take-take : (k : ℕ) (xs : List AuditRow) → take k (take k xs) ≡ take k xs
    take-take zero xs = refl
    take-take (suc k) [] = refl
    take-take (suc k) (x ∷ xs) = ap (λ t. x ∷ t) (take-take k xs)

-- ===== src/Platform/Sort.antt =====
-- `Array.prototype.sort()` on strings: by code units, stable. Equal strings cannot be told apart, so
-- that the result is the one sorted arrangement, which insertion sort computes.
use mathlib.Core.List.{Perm, Permᴰ}
use mathlib.Core.List.Perm
use mathlib.Core.Logic.{∥∥₁_elim}
use native.Mathlib.Nat.{ℕ_set}
use opentreasury.Prelude.{◌≡◌, refl, ◌∙◌, List, [], ◌∷◌, arith, if◌then◌else◌, Bool-cases, inl, inr}
use opentreasury.Prelude.Predicates.{All}
use opentreasury.Prelude.Text.{Text, le_text, le_text_antisymm, le_text_trans, le_text_total}

unfoldable pub insert : Text → List Text → List Text
insert t [] = t ∷ []
insert t (u ∷ us) = if le_text t u then t ∷ u ∷ us else u ∷ insert t us

unfoldable pub sort : List Text → List Text
unfolding insert
sort [] = []
sort (t ∷ ts) = insert t (sort ts)

pub insert-perm : (t : Text) (us : List Text) → Perm (insert t us) (t ∷ us)
unfolding insert
insert-perm t [] = Perm.refl _
insert-perm t (u ∷ us) = elim (Bool-cases (le_text t u)) [
  | inl e ↦ rw e (Perm.refl _)
  | inr e ↦ rw e (Perm.trans (Perm.cons u (insert-perm t us)) (Perm.swap _ _ _))
]

-- The result holds the same strings.
pub sort-perm : (ts : List Text) → Perm (sort ts) ts
unfolding sort
sort-perm [] = Perm.refl []
sort-perm (t ∷ ts) = Perm.trans (insert-perm t (sort ts)) (Perm.cons t (sort-perm ts))

-- Two insertions commute, whichever way the order falls.
insert_comm : (s t : Text) (us : List Text) → insert s (insert t us) ≡ insert t (insert s us)
unfolding insert
insert_comm s t [] = ground (arith, le_text_antisymm s t, le_text_total s t)
insert_comm s t (u ∷ us) = ground (
  arith,
  insert_comm s t us,
  le_text_antisymm s t,
  le_text_total s t,
  le_text_total t u,
  le_text_total s u,
  le_text_trans s t u,
  le_text_trans t s u,
)

sort-eq_of_permᴰ : {ts us : List Text} → Permᴰ ts us → sort ts ≡ sort us
unfolding sort
sort-eq_of_permᴰ Permᴰ.nil = refl
sort-eq_of_permᴰ (Permᴰ.cons {a} {b} e p) = rw (e, sort-eq_of_permᴰ p)
sort-eq_of_permᴰ (Permᴰ.swap {a} {b} {l} e f) = rw (e, f) (insert_comm _ _ (sort l))
sort-eq_of_permᴰ (Permᴰ.trans p q) = sort-eq_of_permᴰ p ∙ sort-eq_of_permᴰ q

-- The result does not depend on the order of the strings.
pub sort-eq_of_perm : {ts us : List Text} → Perm ts us → sort ts ≡ sort us
sort-eq_of_perm p = ∥∥₁_elim p (hlevel ℕ_set) sort-eq_of_permᴰ

module _ {κ} (P : Text → Type κ) where
  All-insert : (t : Text) (us : List Text) → P t → All P us → All P (insert t us)
  unfolding insert
  All-insert t [] p h = (p, h)
  All-insert t (u ∷ us) p (q, h) = elim (Bool-cases (le_text t u)) [
    | inl e ↦ rw e (p, (q, h))
    | inr e ↦ rw e (q, All-insert t us p h)
  ]

  pub All-sort : (ts : List Text) → All P ts → All P (sort ts)
  unfolding sort
  All-sort [] h = tt
  All-sort (t ∷ ts) (p, h) = All-insert t (sort ts) p (All-sort ts h)

-- ===== src/Platform/Slice.antt =====
-- `Array.prototype.slice(start, end)`: a negative bound counts from the end, NaN counts as 0, and
-- both bounds are held to the length.
use opentreasury.Prelude.{
  ℕ, zero, suc, [], sym, ◌∙◌, ◌+◌, ◌-◌, ◌≤◌, ◌≡◌, refl, ap, min, List, arith, length, take, drop,
  length-drop, take_all, drop_all, inl, inr, ◌⊎◌,
}
use opentreasury.Prelude.Int.{pos, negsuc}
use opentreasury.Platform.Number.{Number, nan, int}

unfoldable pub to_index : ℕ → Number → ℕ
to_index len nan = 0
to_index len (int (pos n)) = min n len
to_index len (int (negsuc n)) = len - suc n

le_total : (a b : ℕ) → (a ≤ b) ⊎ (b ≤ a)
le_total a b = omega arith

module _ {ℓ} {A : Type ℓ} where
  unfoldable pub slice : List A → Number → Number → List A
  unfolding to_index
  slice xs start end =
      let from = to_index (length xs) start in take (to_index (length xs) end - from) (drop from xs)

  take-nil : (n : ℕ) → take {A = A} n [] ≡ []
  take-nil zero = refl
  take-nil (suc n) = refl

  take-min : (n : ℕ) (xs : List A) → take (min n (length xs)) xs ≡ take n xs
  take-min n xs = elim (le_total n (length xs)) [
    | inl h ↦ ap (λ k. take k xs) (omega arith)
    | inr h ↦ rw (take_all n xs h) (take_all _ xs (omega arith))
  ]

  -- Between bounds that are no negative numbers the slice drops and takes.
  pub slice-pos :
      (xs : List A) (m n : ℕ) → slice xs (int (pos m)) (int (pos (m + n))) ≡ take n (drop m xs)
  unfolding slice
  slice-pos xs m n = elim (le_total m (length xs)) [
    | inl h ↦
        let count : min (m + n) (length xs) - m ≡ min n (length (drop m xs)) =
          omega (arith, length-drop m xs) in
        let same : min m (length xs) ≡ m = omega arith in rw (same, count) (take-min n (drop m xs))
    | inr h ↦
        let same : min m (length xs) ≡ length xs = omega arith in
        rw (same, drop_all m xs h, drop_all (length xs) xs (omega arith))
          (take-nil (min (m + n) (length xs) - length xs) ∙ sym (take-nil n))
  ]

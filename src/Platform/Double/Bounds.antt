-- ===== src/Platform/Double/Bounds.antt =====
-- How far a rounded number is from the exact one.
use native.Mathlib.Numerals.{unary_clauses}
use opentreasury.Prelude.{
  ℕ, zero, suc, ◌+◌, ◌*◌, ◌/◌, ◌%◌, ◌^◌, ◌≤◌, ◌≡◌, Bool-cases, leb, arith, inl, inr, ◌⊎◌,
}
use opentreasury.Platform.Double.{nearest, finer}

nearest_cases :
    (p q : ℕ)
    → ((nearest p q ≡ p / q) × (2 * (p % q) ≤ q))
      ⊎ ((nearest p q ≡ suc (p / q)) × (q ≤ 2 * (p % q)))
unfolding nearest
nearest_cases p q = ground arith

-- The nearest integer is within one half.
pub nearest_lem :
    (p s : ℕ)
    → (2 * (nearest p (suc s) * suc s) ≤ 2 * p + suc s)
      × (2 * p ≤ 2 * (nearest p (suc s) * suc s) + suc s)
nearest_lem p s = elim (nearest_cases p (suc s)) [
  | inl (e, h) ↦ rw e (omega arith, omega arith)
  | inr (e, h) ↦ rw e (omega arith, omega arith)
]

-- With enough steps the scaled fraction has 53 bits.
pub finer_lem : (n p q a : ℕ) → 2 ^ 52 * q ≤ p * (2 ^ n * a) → 2 ^ 52 * q ≤ p * finer n p q a
unfolding finer
finer_lem zero p q a h = omega (arith, h)
finer_lem (suc n) p q a h =
    let e : 2 ^ suc n * a ≡ 2 ^ n * (2 * a) = simp unary_clauses (omega arith) in
    let ih = finer_lem n p q (2 * a) (rw e at h) in
    elim (Bool-cases (leb (2 ^ 52 * q) (p * a))) [ inl t ↦ rw t (ground arith) | inr t ↦ rw t ih ]

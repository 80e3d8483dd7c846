-- ===== src/Platform/Double/Cents.antt =====
-- A decimal fraction of an integer number of hundredths, as a double, times a hundred, rounded: the
-- errors of the two roundings do not reach one half.
use native.Mathlib.Nat.{div-eq_of_lt-le}
use opentreasury.Prelude.{
  ℕ, zero, suc, ◌+◌, ◌*◌, ◌/◌, ◌^◌, ◌≤◌, ◌<◌, ◌≡◌, refl, ap, ◌∙◌, Bool, true, false, arith, inl,
  inr, ◌⊎◌,
}
use opentreasury.Platform.Double.{
  nearest, finer, round, times, math_round, finite, is_finite, is_negative,
}
use opentreasury.Platform.Double.Bounds.{nearest_lem, finer_lem}

mul_mono : (k x y : ℕ) → x ≤ y → x * k ≤ y * k
mul_mono zero x y h = omega arith
mul_mono (suc k) x y h = omega (arith, mul_mono k x y h)

lt_or_le : (x y : ℕ) → (x < y) ⊎ (y ≤ x)
lt_or_le x y = omega arith

cancel_le : (k x y : ℕ) → 0 < k → x * k ≤ y * k → x ≤ y
cancel_le k x y pos h = elim (lt_or_le y x) [
  | inr le ↦ le
  | inl lt ↦ absurd (omega (arith, mul_mono k (suc y) x lt))
]

cancel_lt : (k x y : ℕ) → x * k < y * k → x < y
cancel_lt k x y h = elim (lt_or_le x y) [
  | inl lt ↦ lt
  | inr le ↦ absurd (omega (arith, mul_mono k y x le))
]

-- The scaled hundredths against the exact count.
scaled :
    (c p q m a : ℕ)
    → 0 < q
    → p * 100 ≡ c * q
    → 2 * (m * q) ≤ 2 * (p * a) + q
    → 2 * (p * a) ≤ 2 * (m * q) + q
    → (100 * m ≤ c * a + 50) × (c * a ≤ 100 * m + 50)
scaled c p q m a pos e lo hi =
    let exact : 100 * (p * a) ≡ c * a * q = omega (arith, ap (λ k. k * a) e) in
    (
      cancel_le q (100 * m) (c * a + 50) pos (omega arith),
      cancel_le q (c * a) (100 * m + 50) pos (omega arith),
    )

fine_enough : (c p q a : ℕ) → 0 < q → c < 2 ^ 50 → p * 100 ≡ c * q → 2 ^ 52 * q ≤ p * a → 400 ≤ a
fine_enough c p q a pos small e h =
    let exact : 100 * (p * a) ≡ c * a * q = omega (arith, ap (λ k. k * a) e) in
    let bits : 100 * 2 ^ 52 ≤ c * a = cancel_le q (100 * 2 ^ 52) (c * a) pos (omega arith) in
    elim (lt_or_le a 400) [
      | inr le ↦ le
      | inl lt ↦ absurd (omega (arith, mul_mono c a 400 (omega arith)))
    ]

scale_left :
    (c m a b : ℕ) → c < 2 ^ 50 → 400 ≤ a → 100 * m ≤ c * a + 50 → 2 ^ 52 * a ≤ m * 100 * b → 4 ≤ b
scale_left c m a b small large near h = elim (lt_or_le b 4) [
  | inr le ↦ le
  | inl lt ↦
      let three : m * 100 * b ≤ m * 100 * 3 = omega (arith, mul_mono (m * 100) b 3 (omega arith)) in
      absurd (omega (arith, mul_mono a (suc c) (2 ^ 50) small))
]

between :
    (c m a n b : ℕ)
    → 400 ≤ a
    → 4 ≤ b
    → 100 * m ≤ c * a + 50
    → c * a ≤ 100 * m + 50
    → 2 * (n * a) ≤ 2 * (m * 100 * b) + a
    → 2 * (m * 100 * b) ≤ 2 * (n * a) + a
    → (2 * n < 2 * (c * b) + b) × (2 * (c * b) < 2 * n + b)
between c m a n b la lb near1 near2 lo hi =
    let above : m * 100 * b ≤ c * a * b + 50 * b =
      omega (arith, mul_mono b (100 * m) (c * a + 50) near1) in
    let below : c * a * b ≤ m * 100 * b + 50 * b =
      omega (arith, mul_mono b (c * a) (100 * m + 50) near2) in
    let wide : 400 * b ≤ a * b = mul_mono b 400 a la in
    let deep : 4 * a ≤ b * a = mul_mono a 4 b lb in
    (
      cancel_lt a (2 * n) (2 * (c * b) + b) (omega arith),
      cancel_lt a (2 * (c * b)) (2 * n + b) (omega arith),
    )

half_up :
    (c n b : ℕ)
    → 0 < b
    → 2 * n < 2 * (c * b) + b
    → 2 * (c * b) < 2 * n + b
    → (2 * n + b) / (2 * b) ≡ c
half_up c n b pos lo hi = div-eq_of_lt-le (2 * b) (omega arith) (omega arith)

finer_pos : (n p q a : ℕ) → 0 < a → 0 < finer n p q a
unfolding finer
finer_pos zero p q a h = h
finer_pos (suc n) p q a h = ground (arith, finer_pos n p q (2 * a))

nearest_zero : (q : ℕ) → 0 < q → nearest 0 q ≡ 0
unfolding nearest
nearest_zero q h = ground arith

-- The numerator and the denominator of a fraction that is rounded below 2 ^ 53.
abbrev den_of : ℕ → ℕ → ℕ
den_of p q = finer 1074 p q 1

abbrev num_of : ℕ → ℕ → ℕ
num_of p q = nearest (p * den_of p q) q

round_small :
    (negative : Bool) (p q : ℕ)
    → p < 2 ^ 53 * q
    → round negative p q ≡ finite negative (num_of p q) (den_of p q)
unfolding round
round_small negative p q h = ground arith

num_of-bounds :
    (p q : ℕ)
    → 0 < q
    → (2 * (num_of p q * q) ≤ 2 * (p * den_of p q) + q)
      × (2 * (p * den_of p q) ≤ 2 * (num_of p q * q) + q)
num_of-bounds p zero h = absurd (omega arith)
num_of-bounds p (suc s) h = nearest_lem (p * den_of p (suc s)) s

-- A fraction of at least 2 ^ -7 is scaled to 53 bits.
den_of-bits : (p q : ℕ) → q ≤ p * 128 → 2 ^ 52 * q ≤ p * den_of p q
den_of-bits p q h =
    finer_lem 1074 p q 1
      (omega (arith, mul_mono (2 ^ 52) q (p * 128) h, mul_mono p (2 ^ 59) (2 ^ 1074) (omega arith)))

cents_pos :
    (c p q : ℕ)
    → 0 < q
    → 0 < c
    → c < 2 ^ 50
    → p * 100 ≡ c * q
    → math_round (times (round false p q) 100) ≡ finite false c 1
unfolding math_round times
cents_pos c p q pos some_cents small e =
    let a = den_of p q in
    let m = num_of p q in
    let b = den_of (m * 100) a in
    let at_least : q ≤ p * 128 = omega (arith, mul_mono q 1 c some_cents) in
    let below : p < 2 ^ 53 * q = omega (arith, mul_mono q c (2 ^ 50) (omega arith)) in
    let large = fine_enough c p q a pos small e (den_of-bits p q at_least) in
    let bounds = num_of-bounds p q pos in
    let (near1, near2) = scaled c p q m a pos e bounds.0 bounds.1 in
    let some_a : 1 * a ≤ c * a = mul_mono a 1 c some_cents in
    let most_a : suc c * a ≤ 2 ^ 50 * a = mul_mono a (suc c) (2 ^ 50) small in
    let again : m * 100 < 2 ^ 53 * a = omega (arith, near1, most_a, large) in
    let left : 4 ≤ b =
      scale_left c m a b small large near1
        (den_of-bits (m * 100) a (omega (arith, near2, some_a, large))) in
    let bounds' = num_of-bounds (m * 100) a (omega (arith, large)) in
    let (lo, hi) =
      between c m a (num_of (m * 100) a) b large left near1 near2 bounds'.0 bounds'.1 in
    rw (round_small false p q below, round_small false (m * 100) a again)
      (ap (λ k. finite false k 1) (half_up c (num_of (m * 100) a) b (omega (arith, left)) lo hi))

round_zero : (q : ℕ) → 0 < q → round false 0 q ≡ finite false 0 (den_of 0 q)
round_zero q pos =
    let z : 0 * den_of 0 q ≡ 0 = omega arith in
    round_small false 0 q (omega arith)
    ∙ ap (λ k. finite false (nearest k q) (den_of 0 q)) z
    ∙ ap (λ k. finite false k (den_of 0 q)) (nearest_zero q pos)

half_up_zero : (b : ℕ) → 0 < b → (2 * 0 + b) / (2 * b) ≡ 0
half_up_zero b h = half_up 0 0 b h (omega (arith, h)) (omega (arith, h))

cents_zero : (p q : ℕ) → 0 < q → p ≡ 0 → math_round (times (round false p q) 100) ≡ finite false 0 1
unfolding math_round times
cents_zero p q pos e =
    let a = den_of 0 q in
    let positive : 0 < a = finer_pos 1074 0 q 1 (omega arith) in
    rw (e, round_zero q pos, round_zero a positive)
      (ap (λ k. finite false k 1) (half_up_zero (den_of 0 a) (finer_pos 1074 0 a 1 (omega arith))))

-- A number of `c` hundredths, below 2 ^ 50, as a double, times a hundred, rounded, is `c`.
pub cents_lem :
    (c p q : ℕ)
    → 0 < q
    → c < 2 ^ 50
    → p * 100 ≡ c * q
    → math_round (times (round false p q) 100) ≡ finite false c 1
cents_lem zero p q pos small e = cents_zero p q pos (omega (arith, e))
cents_lem (suc c) p q pos small e = cents_pos (suc c) p q pos (omega arith) small e

-- Such a double is finite and not negative.
pub hundredths-is_finite :
    (c : ℕ)
    → c < 2 ^ 50
    → (is_finite (round false c 100) ≡ true) × (is_negative (round false c 100) ≡ false)
hundredths-is_finite c h = rw (round_small false c 100 (omega arith)) (refl, refl)

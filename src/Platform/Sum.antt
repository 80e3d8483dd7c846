-- ===== src/Platform/Sum.antt =====
-- The sum of two integers as doubles: the exact sum, rounded to 53 bits. Below 2 ^ 53 it is exact.
-- A sum from 2 ^ 1024 on, which is `Infinity` in JavaScript, is not modelled.
use opentreasury.Prelude.{ℕ, suc, ◌+◌, ◌*◌, ◌<◌, ◌≤◌, ◌^◌, ◌≡◌, arith, ltb, if◌then◌else◌}
use opentreasury.Prelude.Int.{ℤ, pos, negsuc, pos_part, neg_part, ◌+ℤ◌, ◌-ℤ◌}
use opentreasury.Platform.Double.{coarser, nearest}
use opentreasury.Platform.Number.{Number, nan, int}

unfoldable pub rounded_ℕ : ℕ → ℕ
rounded_ℕ n = if ltb n (2 ^ 53) then n else let unit = coarser 1024 n 1 1 in nearest n unit * unit

unfoldable pub rounded : ℤ → ℤ
rounded (pos n) = pos (rounded_ℕ n)
rounded (negsuc n) = pos 0 -ℤ pos (rounded_ℕ (suc n))

-- `a + b`.
unfoldable pub sum : Number → Number → Number
sum (int a) (int b) = int (rounded (a +ℤ b))
sum (int a) nan = nan
sum nan b = nan

-- The absolute value.
abbrev pub size : ℤ → ℕ
size a = pos_part a + neg_part a

rounded_ℕ_exact : (n : ℕ) → n < 2 ^ 53 → rounded_ℕ n ≡ n
unfolding rounded_ℕ
rounded_ℕ_exact n h = ground arith

pub rounded_exact : (a : ℤ) → size a < 2 ^ 53 → rounded a ≡ a
unfolding rounded ◌-ℤ◌
rounded_exact (pos n) h = rw (rounded_ℕ_exact n (omega arith))
rounded_exact (negsuc n) h = rw (rounded_ℕ_exact (suc n) (omega arith)) (ground arith)

pub size_add : (a b : ℤ) → size (a +ℤ b) ≤ size a + size b
unfolding ◌+ℤ◌
size_add a b = ground arith

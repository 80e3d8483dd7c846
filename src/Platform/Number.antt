-- ===== src/Platform/Number.antt =====
-- JavaScript numbers, as far as the code computes with them: integers, exact while they stay below
-- 2 ^ 53, and NaN, which a failed conversion of a form field gives. Amounts are integers in minor
-- units, and years, pages and page sizes are integers. The sums of amounts, which may grow beyond, are
-- those of Platform/Sum.
use opentreasury.Prelude.{ℕ, zero, suc, Bool, true, false, leb, ◌==◌, ◌+◌}
use opentreasury.Prelude.Int.{ℤ, pos, negsuc, pos_part, neg_part, ltb_ℤ, ◌+ℤ◌, ◌-ℤ◌, ◌*ℤ◌}

pub data Number : Type 0 where
  nan : Number
  int : ℤ → Number

abbrev pub leb_ℤ : ℤ → ℤ → Bool
leb_ℤ a b = leb (pos_part a + neg_part b) (pos_part b + neg_part a)

abbrev pub eqb_ℤ : ℤ → ℤ → Bool
eqb_ℤ a b = pos_part a + neg_part b == pos_part b + neg_part a

-- Zero and NaN count as false in a condition.
abbrev pub is_truthy : Number → Bool
is_truthy nan = false
is_truthy (int (pos zero)) = false
is_truthy (int (pos (suc n))) = true
is_truthy (int (negsuc n)) = true

abbrev pub is_nan : Number → Bool
is_nan nan = true
is_nan (int z) = false

-- A comparison with NaN is false.
abbrev pub le : Number → Number → Bool
le (int a) (int b) = leb_ℤ a b
le (int a) nan = false
le nan b = false

abbrev pub lt : Number → Number → Bool
lt (int a) (int b) = ltb_ℤ a b
lt (int a) nan = false
lt nan b = false

-- `a === b`.
abbrev pub eq : Number → Number → Bool
eq (int a) (int b) = eqb_ℤ a b
eq (int a) nan = false
eq nan b = false

abbrev pub add : Number → Number → Number
add (int a) (int b) = int (a +ℤ b)
add (int a) nan = nan
add nan b = nan

abbrev pub sub : Number → Number → Number
sub (int a) (int b) = int (a -ℤ b)
sub (int a) nan = nan
sub nan b = nan

abbrev pub mul : Number → Number → Number
mul (int a) (int b) = int (a *ℤ b)
mul (int a) nan = nan
mul nan b = nan

abbrev pub of_ℕ : ℕ → Number
of_ℕ n = int (pos n)

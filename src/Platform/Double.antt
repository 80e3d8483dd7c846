-- ===== src/Platform/Double.antt =====
-- Numbers with a fraction: IEEE 754 doubles as JavaScript computes with them, and `Number(text)`.
-- A finite double is a fraction of natural numbers with a sign. Each operation is the exact one,
-- rounded to the nearest double, the even one of two.
pub mod Literal
pub mod Bounds
pub mod Cents
use opentreasury.Prelude.{
  ℕ, zero, suc, ◌+◌, ◌-◌, ◌*◌, ◌/◌, ◌%◌, ◌^◌, Bool, true, false, Option, none, some, if◌then◌else◌,
  ltb, leb, ◌==◌, ◌∷◌, [], ◌++◌,
}
use opentreasury.Prelude.Text.{Text, codes}
use opentreasury.Platform.Decimal.{show_ℕ}

pub data Double : Type 0 where
  nan : Double
  infinite : (negative : Bool) → Double
  finite : (negative : Bool) (num den : ℕ) → Double

-- The integer nearest to `p / q`, the even one of two.
unfoldable pub nearest : ℕ → ℕ → ℕ
nearest p q =
    let floor = p / q in
    let rest = 2 * (p % q) in
    if ltb rest q
    then floor
    else if ltb q rest
    then suc floor
    else if floor % 2 == 0
    then floor
    else suc floor

-- The first power of two from `a` on that scales `p / q` to 53 bits, or the last one.
unfoldable pub finer : ℕ → ℕ → ℕ → ℕ → ℕ
finer zero p q a = a
finer (suc n) p q a = let rest = finer n p q (2 * a) in if leb (2 ^ 52 * q) (p * a) then a else rest

-- The first power of two from `b` on by which `p / q` has at most 53 bits, or the last one.
unfoldable pub coarser : ℕ → ℕ → ℕ → ℕ → ℕ
coarser zero p q b = b
coarser (suc n) p q b =
    let rest = coarser n p q (2 * b) in if ltb p (2 ^ 53 * q * b) then b else rest

-- The double nearest to `p / q`: 53 bits, the unit no smaller than 2 ^ -1074, below 2 ^ 1024.
unfoldable pub round : Bool → ℕ → ℕ → Double
unfolding nearest
round negative p q =
    let a = finer 1074 p q 1 in
    let b = coarser 1024 p q 1 in
    let large = nearest p (q * b) * b in
    if ltb p (2 ^ 53 * q)
    then finite negative (nearest (p * a) q) a
    else if ltb large (2 ^ 1024)
    then finite negative large 1
    else infinite negative

-- `x * k` and `x / k` for a positive integer.
unfoldable pub times : Double → ℕ → Double
times nan k = nan
times (infinite negative) k = infinite negative
times (finite negative num den) k = round negative (num * k) den

unfoldable pub over : Double → ℕ → Double
over nan k = nan
over (infinite negative) k = infinite negative
over (finite negative num den) k = round negative num (den * k)

-- `x + y`; numbers of unlike signs that cancel give the positive zero.
unfoldable pub less : ℕ → ℕ → ℕ → Double
less m n den = if leb n m then round false (m - n) den else round true (n - m) den

unfoldable pub plus : Double → Double → Double
unfolding less
plus nan y = nan
plus (infinite s) nan = nan
plus (infinite true) (infinite true) = infinite true
plus (infinite false) (infinite false) = infinite false
plus (infinite s) (infinite t) = nan
plus (infinite s) (finite t c d) = infinite s
plus (finite s a b) nan = nan
plus (finite s a b) (infinite t) = infinite t
plus (finite false a b) (finite false c d) = round false (a * d + c * b) (b * d)
plus (finite true a b) (finite true c d) = round true (a * d + c * b) (b * d)
plus (finite false a b) (finite true c d) = less (a * d) (c * b) (b * d)
plus (finite true a b) (finite false c d) = less (c * b) (a * d) (b * d)

-- `Math.round(x)`: to the nearest integer, up from the middle.
unfoldable pub math_round : Double → Double
math_round nan = nan
math_round (infinite negative) = infinite negative
math_round (finite false num den) = finite false ((2 * num + den) / (2 * den)) 1
math_round (finite true num den) = finite true ((2 * num - den + (2 * den - 1)) / (2 * den)) 1

abbrev pub is_finite : Double → Bool
is_finite nan = false
is_finite (infinite negative) = false
is_finite (finite negative num den) = true

-- `x < 0`
abbrev pub is_negative : Double → Bool
is_negative nan = false
is_negative (infinite negative) = negative
is_negative (finite negative num den) = if negative then ltb 0 num else false

-- `String(x)`: the digits of an integer below 10 ^ 21. The print of any other finite number is the
-- parameter `print`.
unfoldable pub show_double : (Double → Text) → Double → Text
show_double print nan = codes "NaN"
show_double print (infinite negative) = if negative then codes "-Infinity" else codes "Infinity"
show_double print (finite negative num den) =
    if num % den == 0
    then if ltb (num / den) (10 ^ 21)
      then if negative
        then (if num == 0 then codes "0" else b'-' ∷ show_ℕ (num / den))
        else show_ℕ (num / den)
      else print (finite negative num den)
    else print (finite negative num den)

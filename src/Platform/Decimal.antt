-- ===== src/Platform/Decimal.antt =====
-- `String(n)` for integers below 2 ^ 53, which JavaScript prints with all their digits, and what the
-- digits of a print stand for. The shortest digits of a double from 2 ^ 53 on, and the exponent form
-- from 10 ^ 21 on, are not modelled.
use opentreasury.Prelude.{
  length, refl, true, false, ℕ, zero, suc, ◌+◌, ◌-◌, ◌*◌, ◌/◌, ◌%◌, ◌<◌, ◌≤◌, ◌≡◌, ◌≢◌, sym, ap,
  ◌∙◌, [], ◌∷◌, arith, ltb, if◌then◌else◌,
}
use opentreasury.Prelude.Int.{ℤ, pos, negsuc}
use opentreasury.Prelude.Predicates.{All}
use opentreasury.Prelude.Text.{Text, codes}
use opentreasury.Platform.Number.{Number, nan, int}

-- The digits of `n` before `acc`; the fuel is above the number of digits.
print_from : ℕ → ℕ → Text → Text
print_from zero n acc = acc
print_from (suc fuel) n acc =
    let rest = print_from fuel (n / 10) ((b'0' + n % 10) ∷ acc) in
    if ltb n 10 then (b'0' + n) ∷ acc else rest

unfoldable pub show_ℕ : ℕ → Text
unfolding print_from
show_ℕ n = print_from (suc n) n []

unfoldable pub show_ℤ : ℤ → Text
unfolding show_ℕ
show_ℤ (pos n) = show_ℕ n
show_ℤ (negsuc n) = b'-' ∷ show_ℕ (suc n)

-- `String(n)`, and a number in a template literal.
unfoldable pub show : Number → Text
unfolding show_ℤ
show nan = codes "NaN"
show (int z) = show_ℤ z

abbrev pub IsDigit : ℕ → Type 0
IsDigit c = (b'0' ≤ c) × (c ≤ b'9')

-- The number that digits spell behind `n`.
abbrev pub value : ℕ → Text → ℕ
value n [] = n
value n (c ∷ s) = value (n * 10 + (c - b'0')) s

value-print_from :
    (fuel n : ℕ) (acc : Text) → n < fuel → value 0 (print_from fuel n acc) ≡ value n acc
unfolding print_from
value-print_from zero n acc h = absurd (omega arith)
value-print_from (suc fuel) n acc h =
    ground (arith, value-print_from fuel (n / 10) ((b'0' + n % 10) ∷ acc))

digits-print_from :
    (fuel n : ℕ) (acc : Text) → n < fuel → All IsDigit acc → All IsDigit (print_from fuel n acc)
unfolding print_from
digits-print_from zero n acc h d = d
digits-print_from (suc fuel) n acc h d =
    ground (arith, digits-print_from fuel (n / 10) ((b'0' + n % 10) ∷ acc))

pub value-show_ℕ : (n : ℕ) → value 0 (show_ℕ n) ≡ n
unfolding show_ℕ
value-show_ℕ n = value-print_from (suc n) n [] (omega arith)

pub show_ℕ-digits : (n : ℕ) → All IsDigit (show_ℕ n)
unfolding show_ℕ
show_ℕ-digits n = digits-print_from (suc n) n [] (omega arith) tt

pub show_ℕ_filled : (n : ℕ) → 1 ≤ length (show_ℕ n)
show_ℕ_filled zero = unfold show_ℕ print_from in (omega arith)
show_ℕ_filled (suc n) = go (show_ℕ (suc n)) (value-show_ℕ (suc n))
  where
    go : (s : Text) → value 0 s ≡ suc n → 1 ≤ length s
    go [] e = absurd (omega (arith, e))
    go (c ∷ s) e = omega arith

-- The digits of a number below 10, and of one below 100.
pub show_ℕ_one : (n : ℕ) → n < 10 → show_ℕ n ≡ (b'0' + n) ∷ []
unfolding show_ℕ print_from
show_ℕ_one n h = let small : ltb n 10 ≡ true = ground arith in rw small refl

pub show_ℕ_two : (n : ℕ) → 10 ≤ n → n < 100 → show_ℕ n ≡ (b'0' + n / 10) ∷ (b'0' + n % 10) ∷ []
unfolding show_ℕ print_from
show_ℕ_two zero low high = absurd (omega arith)
show_ℕ_two (suc n) low high =
    let large : ltb (suc n) 10 ≡ false = ground arith in
    let small : ltb (suc n / 10) 10 ≡ true = ground arith in rw (large, small) refl

pub show_ℕ_injective : (m n : ℕ) → show_ℕ m ≡ show_ℕ n → m ≡ n
show_ℕ_injective m n e = sym (value-show_ℕ m) ∙ ap (value 0) e ∙ value-show_ℕ n

minus-digits : (s t : Text) → All IsDigit s → s ≢ b'-' ∷ t
minus-digits [] t d = cc
minus-digits (c ∷ s) t (d, _) = ground arith

pub show_ℤ_injective : (a b : ℤ) → show_ℤ a ≡ show_ℤ b → a ≡ b
unfolding show_ℤ
show_ℤ_injective (pos m) (pos n) e = ap pos (show_ℕ_injective m n e)
show_ℤ_injective (pos m) (negsuc n) e = absurd (minus-digits _ _ (show_ℕ-digits m) e)
show_ℤ_injective (negsuc m) (pos n) e = absurd (minus-digits _ _ (show_ℕ-digits n) (sym e))
show_ℤ_injective (negsuc m) (negsuc n) e =
    ap negsuc (omega (arith, show_ℕ_injective (suc m) (suc n) (cc)))

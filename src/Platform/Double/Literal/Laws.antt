-- ===== src/Platform/Double/Literal/Laws.antt =====
-- What `Number(text)` reads from an amount with two decimals.
use opentreasury.Prelude.{
  ℕ, zero, suc, ◌+◌, ◌-◌, ◌*◌, ◌/◌, ◌%◌, ◌^◌, ◌≤◌, ◌<◌, ◌≡◌, ◌≢◌, refl, ap, ◌∙◌, false, [], ◌∷◌,
  ◌++◌, some, ◌==◌, arith, length,
}
use opentreasury.Prelude.Predicates.{All, All-append, All-weaken}
use opentreasury.Prelude.Text.{Text, codes, same}
use opentreasury.Platform.Decimal.{show_ℕ, IsDigit, value, value-show_ℕ, show_ℕ-digits}
use opentreasury.Platform.Double.{round}
use opentreasury.Platform.Double.Literal.{
  is_space, trim_start, trim_end, trim, digit, read_digits, read_exponent, read_fraction,
  with_exponent, with_fraction, with_whole, decimal, literal, number,
}

-- An amount of hundredths with two decimals.
unfoldable pub two_decimals : ℕ → Text
two_decimals c = show_ℕ (c / 100) ++ b'.' ∷ (b'0' + c % 100 / 10) ∷ (b'0' + c % 10) ∷ []

-- A digit or a point.
abbrev pub IsPlainMark : ℕ → Type 0
IsPlainMark c = (b'.' ≤ c) × (c ≢ b'/') × (c ≤ b'9')

trim_start-plain : (s : Text) → All IsPlainMark s → trim_start s ≡ s
unfolding trim_start
trim_start-plain [] h = refl
trim_start-plain (c ∷ s) (d, h) = let e : is_space c ≡ false = ground arith in rw e refl

trim_end-plain : (s : Text) → All IsPlainMark s → trim_end s ≡ s
unfolding trim_end
trim_end-plain [] h = refl
trim_end-plain (c ∷ s) (d, h) =
    let e : is_space c ≡ false = ground arith in rw e (ap (λ t. c ∷ t) (trim_end-plain s h))

trim-plain : (s : Text) → All IsPlainMark s → trim s ≡ s
unfolding trim
trim-plain s h = rw (trim_start-plain s h) (trim_end-plain s h)

digit-digit : (c : ℕ) → IsDigit c → digit 10 c ≡ some (c - b'0')
unfolding digit
digit-digit c (lo, hi) = ground arith

read_step :
    (c d acc n : ℕ) (s : Text)
    → digit 10 c ≡ some d
    → read_digits 10 acc n (c ∷ s) ≡ read_digits 10 (acc * 10 + d) (suc n) s
unfolding read_digits
read_step c d acc n s e = rw (read_digits, e) refl

read_digits-append :
    (s t : Text) (acc n : ℕ)
    → All IsDigit s
    → read_digits 10 acc n (s ++ t) ≡ read_digits 10 (value acc s) (n + length s) t
unfolding read_digits
read_digits-append [] t acc n h =
    ap (λ k. read_digits 10 acc k t) (let e : n ≡ n + 0 = omega arith in e)
read_digits-append (c ∷ s) t acc n (d, h) =
    read_step c (c - b'0') acc n (s ++ t) (digit-digit c d)
    ∙ read_digits-append s t (acc * 10 + (c - b'0')) (suc n) h
    ∙ ap (λ k. read_digits 10 (value (acc * 10 + (c - b'0')) s) k t)
        (let e : suc n + length s ≡ n + suc (length s) = omega arith in e)

literal-plain :
    (c : ℕ) (s : Text) → IsPlainMark c → All IsPlainMark s → literal (c ∷ s) ≡ decimal false (c ∷ s)
unfolding literal
literal-plain c [] h hs = refl
literal-plain c (d ∷ s) h (hd, hs) = ground arith

read_mark : (t : Text) (acc n : ℕ) → read_digits 10 acc n (b'.' ∷ t) ≡ (acc, n, b'.' ∷ t)
unfolding read_digits digit
read_mark t acc n = refl

digit_of : (a : ℕ) → a < 10 → digit 10 (b'0' + a) ≡ some a
digit_of a h =
    digit-digit (b'0' + a) (omega arith, omega arith)
    ∙ ap some (let e : b'0' + a - b'0' ≡ a = omega arith in e)

read_two :
    (a b acc : ℕ)
    → a < 10
    → b < 10
    → read_digits 10 acc 0 ((b'0' + a) ∷ (b'0' + b) ∷ []) ≡ ((acc * 10 + a) * 10 + b, 2, [])
unfolding read_digits
read_two a b acc ha hb =
    read_step (b'0' + a) a acc 0 ((b'0' + b) ∷ []) (digit_of a ha)
    ∙ read_step (b'0' + b) b (acc * 10 + a) 1 [] (digit_of b hb)

not_infinity :
    (s t : Text) → All IsDigit s → 0 < length s → same (s ++ t) (codes "Infinity") ≡ false
unfolding same
not_infinity [] t h some_digits = absurd (omega arith)
not_infinity (c ∷ s) t (d, h) some_digits = ground arith

read_fraction_two :
    (a b acc : ℕ)
    → a < 10
    → b < 10
    → read_fraction acc (b'.' ∷ (b'0' + a) ∷ (b'0' + b) ∷ []) ≡ ((acc * 10 + a) * 10 + b, 2, [])
unfolding read_fraction
read_fraction_two a b acc ha hb = read_two a b acc ha hb

two_places : (n v : ℕ) → with_fraction false n (v, 2, []) ≡ round false (v * 10 ^ 0) (10 ^ 2)
unfolding with_fraction with_exponent read_exponent
two_places n v = let e : (n + 2 == 0) ≡ false = ground arith in rw e refl

decimal_two :
    (s : Text) (a b : ℕ)
    → All IsDigit s
    → 0 < length s
    → a < 10
    → b < 10
    → decimal false (s ++ b'.' ∷ (b'0' + a) ∷ (b'0' + b) ∷ [])
      ≡ round false (((value 0 s * 10 + a) * 10 + b) * 10 ^ 0) (10 ^ 2)
unfolding decimal with_whole
decimal_two s a b h some_digits ha hb =
    let behind = b'.' ∷ (b'0' + a) ∷ (b'0' + b) ∷ [] in
    let digits : read_digits 10 0 0 (s ++ behind) ≡ (value 0 s, 0 + length s, behind) =
      read_digits-append s behind 0 0 h
      ∙ read_mark ((b'0' + a) ∷ (b'0' + b) ∷ []) (value 0 s) (0 + length s) in
    rw (not_infinity s behind h some_digits) (
      ap (with_whole false) digits
      ∙ ap (with_fraction false (0 + length s)) (read_fraction_two a b (value 0 s) ha hb)
      ∙ two_places (0 + length s) ((value 0 s * 10 + a) * 10 + b))

length-show_ℕ : (n : ℕ) → 0 < length (show_ℕ n)
length-show_ℕ zero = unfold show_ℕ in omega arith
length-show_ℕ (suc n) = go (show_ℕ (suc n)) (value-show_ℕ (suc n))
  where
    go : (s : Text) → value 0 s ≡ suc n → 0 < length s
    go [] e = absurd (omega (arith, e))
    go (c ∷ s) e = omega arith

two_decimals-plain : (c : ℕ) → All IsPlainMark (two_decimals c)
unfolding two_decimals
two_decimals-plain c =
    All-append IsPlainMark (show_ℕ (c / 100)) _
      (All-weaken IsDigit IsPlainMark (show_ℕ (c / 100)) (λ d h. ground arith)
        (show_ℕ-digits (c / 100)))
      (ground arith)

-- The double that is read from an amount with two decimals is the one nearest to its hundredths.
pub number-two_decimals : (c : ℕ) → number (two_decimals c) ≡ round false c 100
unfolding number two_decimals
number-two_decimals c =
    ap literal (trim-plain (two_decimals c) (two_decimals-plain c))
    ∙ plain_decimal (show_ℕ (c / 100)) ((b'0' + c % 100 / 10) ∷ (b'0' + c % 10) ∷ [])
        (two_decimals-plain c)
    ∙ decimal_two (show_ℕ (c / 100)) (c % 100 / 10) (c % 10) (show_ℕ-digits (c / 100))
        (length-show_ℕ (c / 100)) (omega arith) (omega arith)
    ∙ ap (λ k. round false k 100) exact
  where
    plain_decimal :
        (s t : Text)
        → All IsPlainMark (s ++ b'.' ∷ t)
        → literal (s ++ b'.' ∷ t) ≡ decimal false (s ++ b'.' ∷ t)
    plain_decimal [] t (h, hs) = literal-plain b'.' t h hs
    plain_decimal (d ∷ s) t (h, hs) = literal-plain d (s ++ b'.' ∷ t) h hs

    exact : ((value 0 (show_ℕ (c / 100)) * 10 + c % 100 / 10) * 10 + c % 10) * 10 ^ 0 ≡ c
    exact = rw (value-show_ℕ (c / 100)) (omega arith)

pub trim-two_decimals : (c : ℕ) → same (trim (two_decimals c)) [] ≡ false
unfolding same
trim-two_decimals c =
    ap (λ s. same s []) (trim-plain (two_decimals c) (two_decimals-plain c))
    ∙ unfold two_decimals in not_empty (show_ℕ (c / 100)) _
  where
    not_empty : (s : Text) (t : Text) → same (s ++ b'.' ∷ t) [] ≡ false
    not_empty [] t = refl
    not_empty (d ∷ s) t = refl

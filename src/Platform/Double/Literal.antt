-- ===== src/Platform/Double/Literal.antt =====
-- `Number(text)`: white space at the ends is left out, the empty text is zero, and the rest is a
-- decimal, hexadecimal, octal or binary literal, or NaN. And `trim`.
pub mod Laws
use opentreasury.Prelude.{
  ℕ, zero, suc, ◌+◌, ◌-◌, ◌*◌, ◌^◌, Bool, true, false, not, ◌&&◌, ◌||◌, List, [], ◌∷◌, ◌++◌, Option,
  none, some, if◌then◌else◌, ltb, leb, ◌==◌,
}
use opentreasury.Prelude.Text.{Text, codes, same, is_truthy}
use opentreasury.Platform.Double.{Double, nan, infinite, finite, round}

-- White space and line ends.
abbrev pub is_space : ℕ → Bool
is_space c =
    (leb 9 c && leb c 13)
    || c == 32
    || c == 0xA0
    || c == 0x1680
    || (leb 0x2000 c && leb c 0x200A)
    || c == 0x2028
    || c == 0x2029
    || c == 0x202F
    || c == 0x205F
    || c == 0x3000
    || c == 0xFEFF

unfoldable pub trim_start : Text → Text
trim_start [] = []
trim_start (c ∷ s) = let rest = trim_start s in if is_space c then rest else c ∷ s

unfoldable pub trim_end : Text → Text
trim_end [] = []
trim_end (c ∷ s) =
    let rest = trim_end s in if is_space c && not (is_truthy rest) then [] else c ∷ rest

-- `s.trim()`
unfoldable pub trim : Text → Text
unfolding trim_start trim_end
trim s = trim_end (trim_start s)

-- The value of a digit in a base of at most sixteen.
unfoldable pub digit : ℕ → ℕ → Option ℕ
digit base c =
    let d =
      if leb b'0' c && leb c b'9'
      then c - b'0'
      else if leb b'a' c && leb c b'f'
      then 10 + (c - b'a')
      else if leb b'A' c && leb c b'F'
      then 10 + (c - b'A')
      else 16 in
    if ltb d base then some d else none

-- The digits that a text starts with: their value behind `acc`, their count, and the rest.
unfoldable pub read_digits : ℕ → ℕ → ℕ → Text → ℕ × ℕ × Text
unfolding digit
read_digits base acc count [] = (acc, count, [])
read_digits base acc count (c ∷ s) = elim (digit base c) [
  | none ↦ (acc, count, c ∷ s)
  | some d ↦ read_digits base (acc * base + d) (suc count) s
]

-- Digits and nothing else.
unfoldable pub all_digits : ℕ → Text → Option ℕ
unfolding read_digits
all_digits base s =
    let (value, count, rest) = read_digits base 0 0 s in
    if ltb 0 count && not (is_truthy rest) then some value else none

-- The exponent behind the digits: its sign and its value.
unfoldable pub read_exponent : Text → Option (Bool × ℕ)
read_exponent [] = some (false, 0)
read_exponent (c ∷ s) = if c == b'e' || c == b'E' then signed s else none
  where
    with_sign : Bool → Option ℕ → Option (Bool × ℕ)
    with_sign negative none = none
    with_sign negative (some n) = some (negative, n)

    signed : Text → Option (Bool × ℕ)
    signed [] = none
    signed (d ∷ t) =
        if d == b'-'
        then with_sign true (all_digits 10 t)
        else if d == b'+'
        then with_sign false (all_digits 10 t)
        else with_sign false (all_digits 10 (d ∷ t))

-- The digits behind the point, if there is one, after the digits before it.
unfoldable pub read_fraction : ℕ → Text → ℕ × ℕ × Text
unfolding read_digits
read_fraction acc [] = (acc, 0, [])
read_fraction acc (c ∷ s) = if c == b'.' then read_digits 10 acc 0 s else (acc, 0, c ∷ s)

-- The value of a decimal literal from its digits, the count of those behind the point, and the
-- exponent.
unfoldable pub with_exponent : Bool → ℕ → ℕ → Option (Bool × ℕ) → Double
with_exponent negative value places none = nan
with_exponent negative value places (some (false, n)) =
    round negative (value * 10 ^ n) (10 ^ places)
with_exponent negative value places (some (true, n)) = round negative value (10 ^ places * 10 ^ n)

unfoldable pub with_fraction : Bool → ℕ → ℕ × ℕ × Text → Double
unfolding with_exponent read_exponent
with_fraction negative whole_digits (value, places, rest) =
    if whole_digits + places == 0
    then nan
    else with_exponent negative value places (read_exponent rest)

unfoldable pub with_whole : Bool → ℕ × ℕ × Text → Double
unfolding with_fraction read_fraction
with_whole negative (whole, whole_digits, behind) =
    with_fraction negative whole_digits (read_fraction whole behind)

-- A decimal literal without its sign.
unfoldable pub decimal : Bool → Text → Double
unfolding read_digits with_whole
decimal negative s =
    if same s (codes "Infinity")
    then infinite negative
    else with_whole negative (read_digits 10 0 0 s)

abbrev pub integer_or_nan : Option ℕ → Double
integer_or_nan none = nan
integer_or_nan (some n) = round false n 1

-- A literal, without white space around it.
unfoldable pub literal : Text → Double
unfolding decimal
literal [] = finite false 0 1
literal (c ∷ []) = decimal false (c ∷ [])
literal (c ∷ d ∷ s) =
    if c == b'-'
    then decimal true (d ∷ s)
    else if c == b'+'
    then decimal false (d ∷ s)
    else if c == b'0' && (d == b'x' || d == b'X')
    then integer_or_nan (all_digits 16 s)
    else if c == b'0' && (d == b'o' || d == b'O')
    then integer_or_nan (all_digits 8 s)
    else if c == b'0' && (d == b'b' || d == b'B')
    then integer_or_nan (all_digits 2 s)
    else decimal false (c ∷ d ∷ s)

-- `Number(text)`
unfoldable pub number : Text → Double
unfolding literal
number s = literal (trim s)

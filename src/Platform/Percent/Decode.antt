-- ===== src/Platform/Percent/Decode.antt =====
-- Reading a query back: the inverse that a server applies to `params.toString()`, up to UTF-8.
use opentreasury.Prelude.{
  ℕ, ◌+◌, ◌-◌, ◌*◌, ◌/◌, ◌%◌, ◌<◌, ◌≤◌, ◌≡◌, ◌≢◌, refl, ap, true, List, [], ◌∷◌, ◌++◌, Option, none,
  some, arith, ltb, ◌==◌, if◌then◌else◌,
}
use opentreasury.Prelude.Predicates.{All, All-append}
use opentreasury.Prelude.Text.{Text}
use opentreasury.Platform.Percent.{
  encode_point, points_after, encode_points, utf8, is_lead, is_trail, encode_bytes, encode_byte,
  encode_form, hex_digit, is_kept,
}

hex_value : ℕ → ℕ
hex_value c = if ltb c b'A' then c - b'0' else c - b'A' + 10

-- Where a reader of encoded text stands: outside an escape, behind `%`, behind `%` and a digit.
data Mode : Type 0 where
  plain : Mode
  escape : Mode
  digit : ℕ → Mode

read : Mode → Text → List ℕ
read mode [] = []
read plain (c ∷ s) =
    let escaped = read escape s in
    let rest = read plain s in
    if c == b'%' then escaped else if c == b'+' then b' ' ∷ rest else c ∷ rest
read escape (c ∷ s) = read (digit (hex_value c)) s
read (digit h) (c ∷ s) = (h * 16 + hex_value c) ∷ read plain s

pub decode : Text → List ℕ
unfolding read
decode s = read plain s

abbrev pub IsByte : ℕ → Type 0
IsByte b = b < 256

abbrev pub IsUnit : ℕ → Type 0
IsUnit u = u < 0x10000

hex_value-hex_digit : (d : ℕ) → d < 16 → hex_value (hex_digit d) ≡ d
unfolding hex_value hex_digit
hex_value-hex_digit d h = ground arith

is_kept_plain : (b : ℕ) → is_kept b ≡ true → (b ≢ b'%') × (b ≢ b'+')
unfolding is_kept
is_kept_plain b h = ground arith

read-encode_byte :
    (b : ℕ) (s : Text) → IsByte b → read plain (encode_byte b ++ s) ≡ b ∷ read plain s
unfolding read encode_byte
read-encode_byte b s h =
    ground (arith, is_kept_plain b, hex_value-hex_digit (b / 16), hex_value-hex_digit (b % 16))

read-encode_bytes : (bs : List ℕ) → All IsByte bs → read plain (encode_bytes bs) ≡ bs
unfolding encode_bytes
read-encode_bytes [] h = unfold read in refl
read-encode_bytes (b ∷ bs) (h, hs) =
    rw (read-encode_byte b (encode_bytes bs) h) (ap (λ t. b ∷ t) (read-encode_bytes bs hs))

abbrev IsPoint : ℕ → Type 0
IsPoint c = c < 0x110000

encode_point-IsByte : (c : ℕ) → IsPoint c → All IsByte (encode_point c)
unfolding encode_point
encode_point-IsByte c h = ground arith

encode_points-IsByte : (cs : List ℕ) → All IsPoint cs → All IsByte (encode_points cs)
unfolding encode_points
encode_points-IsByte [] h = tt
encode_points-IsByte (c ∷ cs) (h, hs) =
    All-append IsByte (encode_point c) (encode_points cs) (encode_point-IsByte c h)
      (encode_points-IsByte cs hs)

abbrev IsLead : Option ℕ → Type 0
IsLead none = Unit
IsLead (some l) = (0xD800 ≤ l) × (l < 0xDC00)

is_lead_range : (u : ℕ) → is_lead u ≡ true → (0xD800 ≤ u) × (u < 0xDC00)
unfolding is_lead
is_lead_range u h = ground arith

is_trail_range : (u : ℕ) → is_trail u ≡ true → (0xDC00 ≤ u) × (u < 0xE000)
unfolding is_trail
is_trail_range u h = ground arith

points_after-IsPoint :
    (lead : Option ℕ) (s : Text) → IsLead lead → All IsUnit s → All IsPoint (points_after lead s)
unfolding points_after
points_after-IsPoint none [] l h = tt
points_after-IsPoint (some l) [] g h = omega arith
points_after-IsPoint none (u ∷ s) g (h, hs) =
    let single = points_after-IsPoint none s tt hs in
    ground (arith, is_lead_range u, points_after-IsPoint (some u) s)
points_after-IsPoint (some l) (u ∷ s) g (h, hs) =
    let single = points_after-IsPoint none s tt hs in
    ground (arith, is_lead_range u, is_trail_range u, points_after-IsPoint (some u) s)

pub utf8-IsByte : (s : Text) → All IsUnit s → All IsByte (utf8 s)
unfolding utf8
utf8-IsByte s h = encode_points-IsByte _ (points_after-IsPoint none s tt h)

pub decode-encode_form : (s : Text) → All IsUnit s → decode (encode_form s) ≡ utf8 s
unfolding decode encode_form
decode-encode_form s h = unfold encode_form in read-encode_bytes (utf8 s) (utf8-IsByte s h)

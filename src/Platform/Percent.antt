-- ===== src/Platform/Percent.antt =====
-- `params.toString()` and `encodeURIComponent`: each string is written in UTF-8, and a byte that
-- is not kept as it stands is written `%XX`; the form encoding writes a space as `+`.
pub mod Decode
pub mod Parse
use Prim.Native.Nat.{◌-◌, ◌*◌, ◌/◌, ◌%◌, ◌<◌}
use opentreasury.Prelude.{
  ℕ, ◌+◌, ◌≤◌, ◌≡◌, refl, ap, Bool, true, false, ◌&&◌, ◌||◌, List, [], ◌∷◌, ◌++◌, Option, none,
  some, append_assoc, arith, ltb, leb, ◌==◌, if◌then◌else◌, map,
}
use opentreasury.Prelude.Predicates.{All}
use opentreasury.Prelude.Text.{Text, codes}
use opentreasury.Platform.Query.{Query}

-- The bytes of one code point.
encode_point : ℕ → List ℕ
encode_point c =
    if ltb c 0x80
    then c ∷ []
    else if ltb c 0x800
    then (0xC0 + c / 64) ∷ (0x80 + c % 64) ∷ []
    else if ltb c 0x10000
    then (0xE0 + c / 4096) ∷ (0x80 + c / 64 % 64) ∷ (0x80 + c % 64) ∷ []
    else (0xF0 + c / 262144) ∷ (0x80 + c / 4096 % 64) ∷ (0x80 + c / 64 % 64) ∷ (0x80 + c % 64) ∷ []

is_lead : ℕ → Bool
is_lead u = leb 0xD800 u && ltb u 0xDC00

is_trail : ℕ → Bool
is_trail u = leb 0xDC00 u && ltb u 0xE000

-- The code points of a string; half of a pair alone becomes U+FFFD. The first argument is a
-- leading half that waits for its other half.
points_after : Option ℕ → Text → List ℕ
points_after none [] = []
points_after (some l) [] = 0xFFFD ∷ []
points_after none (u ∷ s) =
    let paired = points_after (some u) s in
    let single = points_after none s in
    if is_lead u then paired else if is_trail u then 0xFFFD ∷ single else u ∷ single
points_after (some l) (u ∷ s) =
    let paired = points_after (some u) s in
    let single = points_after none s in
    if is_trail u
    then (0x10000 + (l - 0xD800) * 0x400 + (u - 0xDC00)) ∷ single
    else if is_lead u
    then 0xFFFD ∷ paired
    else 0xFFFD ∷ u ∷ single

encode_points : List ℕ → List ℕ
unfolding encode_point
encode_points [] = []
encode_points (c ∷ cs) = encode_point c ++ encode_points cs

unfoldable pub utf8 : Text → List ℕ
unfolding points_after encode_points is_lead is_trail
utf8 s = encode_points (points_after none s)

hex_digit : ℕ → ℕ
hex_digit d = if ltb d 10 then b'0' + d else b'A' + (d - 10)

is_alnum : ℕ → Bool
is_alnum b = (leb b'0' b && leb b b'9') || (leb b'A' b && leb b b'Z') || (leb b'a' b && leb b b'z')

-- The bytes that the form encoding keeps.
is_kept : ℕ → Bool
unfolding is_alnum
is_kept b = is_alnum b || b == b'*' || b == b'-' || b == b'.' || b == b'_'

encode_byte : ℕ → Text
encode_byte b =
    if is_kept b
    then b ∷ []
    else if b == b' '
    then b'+' ∷ []
    else b'%' ∷ hex_digit (b / 16) ∷ hex_digit (b % 16) ∷ []

encode_bytes : List ℕ → Text
unfolding encode_byte
encode_bytes [] = []
encode_bytes (b ∷ bs) = encode_byte b ++ encode_bytes bs

unfoldable pub encode_form : Text → Text
unfolding encode_bytes utf8 hex_digit is_kept
encode_form s = encode_bytes (utf8 s)

-- The bytes that `encodeURIComponent` keeps; all others become `%XX`. (It throws on half of a
-- surrogate pair alone; that case is not modelled.)
is_unreserved : ℕ → Bool
unfolding is_alnum
is_unreserved b =
    is_alnum b
    || b == b'-'
    || b == b'_'
    || b == b'.'
    || b == b'!'
    || b == b'~'
    || b == b'*'
    || b == b'\''
    || b == b'('
    || b == b')'

component_bytes : List ℕ → Text
unfolding hex_digit is_unreserved
component_bytes [] = []
component_bytes (b ∷ bs) =
    let rest = component_bytes bs in
    if is_unreserved b then b ∷ rest else b'%' ∷ hex_digit (b / 16) ∷ hex_digit (b % 16) ∷ rest

unfoldable pub encode_component : Text → Text
unfolding component_bytes utf8
encode_component s = component_bytes (utf8 s)

-- `params.toString()`.
unfoldable pub to_string : Query → Text
unfolding encode_form
to_string [] = []
to_string ((k, v) ∷ []) = encode_form k ++ b'=' ∷ encode_form v
to_string ((k, v) ∷ p ∷ q) = encode_form k ++ b'=' ∷ (encode_form v ++ b'&' ∷ to_string (p ∷ q))

spaced :
    to_string ((codes "a b", codes "x&y=é") ∷ (codes "page", codes "2") ∷ [])
    ≡ codes "a+b=x%26y%3D%C3%A9&page=2"
unfolding to_string
spaced = refl

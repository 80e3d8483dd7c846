-- ===== src/Platform/Percent/Parse.antt =====
-- Reading a whole query back: parts at `&`, name and value at the first `=`, both decoded.
use opentreasury.Prelude.{
  ℕ, ◌/◌, ◌%◌, ◌<◌, ◌≡◌, ◌≢◌, refl, sym, true, List, [], ◌∷◌, ◌++◌, append_assoc, arith, map,
  filter,
}
use opentreasury.Prelude.Predicates.{All, All-append, All-weaken}
use opentreasury.Prelude.Split.{split, cut, Lacks, split-Lacks, split-append, cut-append}
use opentreasury.Prelude.Text.{Text, is_truthy}
use opentreasury.Platform.Query.{Query}
use opentreasury.Platform.Percent.{
  utf8, encode_bytes, encode_byte, encode_form, to_string, hex_digit, is_kept,
}
use opentreasury.Platform.Percent.Decode.{decode, decode-encode_form, IsUnit, IsByte, utf8-IsByte}

abbrev pub Pairs : Type 0
Pairs = List (List ℕ × List ℕ)

read_pair : Text → List ℕ × List ℕ
read_pair part = let (k, v) = cut b'=' part in (decode k, decode v)

pub parse : Text → Pairs
parse s = map read_pair (filter is_truthy (split b'&' s))

abbrev IsSafe : ℕ → Type 0
IsSafe c = (c ≢ b'&') × (c ≢ b'=')

hex_digit-IsSafe : (d : ℕ) → d < 16 → IsSafe (hex_digit d)
unfolding hex_digit
hex_digit-IsSafe d h = ground arith

is_kept-IsSafe : (b : ℕ) → is_kept b ≡ true → IsSafe b
unfolding is_kept
is_kept-IsSafe b h = ground arith

encode_byte-IsSafe : (b : ℕ) → IsByte b → All IsSafe (encode_byte b)
unfolding encode_byte
encode_byte-IsSafe b h =
    ground (arith, is_kept-IsSafe b, hex_digit-IsSafe (b / 16), hex_digit-IsSafe (b % 16))

encode_bytes-IsSafe : (bs : List ℕ) → All IsByte bs → All IsSafe (encode_bytes bs)
unfolding encode_bytes
encode_bytes-IsSafe [] h = tt
encode_bytes-IsSafe (b ∷ bs) (h, hs) =
    All-append IsSafe (encode_byte b) (encode_bytes bs) (encode_byte-IsSafe b h)
      (encode_bytes-IsSafe bs hs)

encode_form-IsSafe : (s : Text) → All IsUnit s → All IsSafe (encode_form s)
encode_form-IsSafe s h = unfold encode_form in encode_bytes-IsSafe (utf8 s) (utf8-IsByte s h)

abbrev pub AllUnits : Query → Type 0
AllUnits = All (λ p. All IsUnit p.0 × All IsUnit p.1)

-- One pair as `toString` writes it.
write_pair : Text × Text → Text
write_pair (k, v) = encode_form k ++ b'=' ∷ encode_form v

amp_free : (t : Text) → All IsSafe t → Lacks b'&' t
amp_free t h = All-weaken IsSafe (λ c. c ≢ b'&') t (λ c p. p.0) h

eq_free : (t : Text) → All IsSafe t → Lacks b'=' t
eq_free t h = All-weaken IsSafe (λ c. c ≢ b'=') t (λ c p. p.1) h

write_pair-Lacks : (k v : Text) → All IsUnit k → All IsUnit v → Lacks b'&' (write_pair (k, v))
unfolding write_pair
write_pair-Lacks k v hk hv =
    All-append _ (encode_form k) (b'=' ∷ encode_form v) (amp_free _ (encode_form-IsSafe k hk))
      (ground arith, amp_free _ (encode_form-IsSafe v hv))

is_truthy-append : (s t : Text) (c : ℕ) → is_truthy (s ++ c ∷ t) ≡ true
is_truthy-append [] t c = refl
is_truthy-append (d ∷ s) t c = refl

read_pair-write_pair :
    (k v : Text) → All IsUnit k → All IsUnit v → read_pair (write_pair (k, v)) ≡ (utf8 k, utf8 v)
unfolding read_pair write_pair
read_pair-write_pair k v hk hv = rw (
  cut-append b'=' (encode_form k) (encode_form v) (eq_free _ (encode_form-IsSafe k hk)),
  decode-encode_form k hk,
  decode-encode_form v hv,
)

to_string-cons :
    (k v : Text) (p : Text × Text) (q : Query)
    → to_string ((k, v) ∷ p ∷ q) ≡ write_pair (k, v) ++ b'&' ∷ to_string (p ∷ q)
unfolding to_string write_pair
to_string-cons k v p q = sym (append_assoc (encode_form k) (b'=' ∷ encode_form v) _)

split-to_string :
    (p : Text × Text) (q : Query)
    → AllUnits (p ∷ q)
    → split b'&' (to_string (p ∷ q)) ≡ map write_pair (p ∷ q)
split-to_string (k, v) [] ((hk, hv), _) =
    unfold to_string write_pair in split-Lacks b'&' _ (write_pair-Lacks k v hk hv)
split-to_string (k, v) (p ∷ q) ((hk, hv), h) = rw (
  to_string-cons k v p q,
  split-append b'&' _ (to_string (p ∷ q)) (write_pair-Lacks k v hk hv),
  split-to_string p q h,
)

read_pairs :
    (q : Query)
    → AllUnits q
    → map read_pair (filter is_truthy (map write_pair q)) ≡ map (λ p. (utf8 p.0, utf8 p.1)) q
read_pairs [] h = refl
read_pairs ((k, v) ∷ q) ((hk, hv), h) =
    let truthy : is_truthy (write_pair (k, v)) ≡ true =
      unfold write_pair in is_truthy-append (encode_form k) (encode_form v) b'=' in
    rw (truthy, read_pair-write_pair k v hk hv, read_pairs q h)

-- The pairs that a server reads from `params.toString()` are those of `params`, in UTF-8.
pub parse-to_string :
    (q : Query) → AllUnits q → parse (to_string q) ≡ map (λ p. (utf8 p.0, utf8 p.1)) q
unfolding parse
parse-to_string [] h = unfold split to_string in refl
parse-to_string (p ∷ q) h = rw (split-to_string p q h) (read_pairs (p ∷ q) h)

pub is_truthy-to_string : (p : Text × Text) (q : Query) → is_truthy (to_string (p ∷ q)) ≡ true
unfolding to_string
is_truthy-to_string (k, v) [] = is_truthy-append (encode_form k) (encode_form v) b'='
is_truthy-to_string (k, v) (p ∷ q) = is_truthy-append (encode_form k) _ b'='

pub parse-nil : parse [] ≡ []
unfolding parse split
parse-nil = refl

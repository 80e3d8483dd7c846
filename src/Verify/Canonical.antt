-- ===== src/Verify/Canonical.antt =====
-- The canonical string does not depend on the order of the lines, and determines an entry whose
-- fields hold none of the separators.
use mathlib.Core.List.{Perm}
use mathlib.Core.List.Perm
use opentreasury.Prelude.{
  ℕ, suc, ◌-◌, ◌≡◌, ◌≢◌, refl, ap, ◌∙◌, true, List, [], ◌∷◌, ◌++◌, arith, if◌then◌else◌, ◌==◌,
}
use opentreasury.Prelude.Int.{ℤ, pos, negsuc}
use opentreasury.Prelude.Predicates.{All, All-append, All-weaken}
use opentreasury.Prelude.Split.{split, Lacks, split-join}
use opentreasury.Prelude.Text.{Text, join, is_truthy}
use opentreasury.Platform.Number.{Number, nan, int}
use opentreasury.Platform.Decimal.{
  show, show_ℤ, show_ℕ, value, value-show_ℕ, show_ℕ-digits, IsDigit,
}
use opentreasury.Platform.Sort.{sort-eq_of_perm}
use opentreasury.Verify.{PublicEntryLine, PublicEntry, line_text, canonical_entry_string}

-- Entries that differ in the order of their lines alone have the same canonical string.
pub canonical_entry_string-perm :
    (entry : PublicEntry) (lines : List PublicEntryLine)
    → Perm lines entry.lines
    → canonical_entry_string (record entry { lines = lines }) ≡ canonical_entry_string entry
unfolding canonical_entry_string
canonical_entry_string-perm entry lines p = rw (sort-eq_of_perm (Perm.map line_text p))

-- None of the separators.
abbrev pub IsPlain : ℕ → Type 0
IsPlain c = (c ≢ b'|') × (c ≢ b';') × (c ≢ b':')

abbrev pub IsInt : Number → Type 0
IsInt x = (z : ℤ) × (x ≡ int z)

pub record IsCleanLine (line : PublicEntryLine) : Type 0 where
  pub account : All IsPlain line.account_code
  pub direction : All IsPlain line.direction
  pub amount : IsInt line.amount_minor
  pub currency : All IsPlain line.currency

pub record IsClean (entry : PublicEntry) : Type 0 where
  pub id : Lacks b'|' entry.id
  pub institution : Lacks b'|' entry.institution_id
  pub year : IsInt entry.fiscal_year
  pub date : Lacks b'|' entry.effective_date
  pub status : Lacks b'|' entry.status
  pub kind : Lacks b'|' entry.entry_type
  pub lines : All IsCleanLine entry.lines

digits-IsPlain : (s : Text) → All IsDigit s → All IsPlain s
digits-IsPlain s h = All-weaken IsDigit IsPlain s (λ c d. ground arith) h

show_ℤ-IsPlain : (z : ℤ) → All IsPlain (show_ℤ z)
unfolding show_ℤ
show_ℤ-IsPlain (pos n) = digits-IsPlain _ (show_ℕ-digits n)
show_ℤ-IsPlain (negsuc n) = (ground arith, digits-IsPlain _ (show_ℕ-digits (suc n)))

pub show-IsPlain : (x : Number) → IsInt x → All IsPlain (show x)
show-IsPlain x (z, e) = rw e (unfold show in show_ℤ-IsPlain z)

-- Reading a print back.
pub read_ℤ : Text → ℤ
read_ℤ [] = pos 0
read_ℤ (c ∷ s) = if c == b'-' then negsuc (value 0 s - 1) else pos (value 0 (c ∷ s))

read_ℤ-show_ℤ : (z : ℤ) → read_ℤ (show_ℤ z) ≡ z
unfolding show_ℤ read_ℤ
read_ℤ-show_ℤ (negsuc n) = ap negsuc (omega (arith, value-show_ℕ (suc n)))
read_ℤ-show_ℤ (pos n) = read_digits (show_ℕ n) (show_ℕ-digits n) ∙ ap pos (value-show_ℕ n)
  where
    read_digits : (s : Text) → All IsDigit s → read_ℤ s ≡ pos (value 0 s)
    read_digits [] h = refl
    read_digits (c ∷ s) (d, _) = ground arith

read_parts : List Text → PublicEntryLine
read_parts (a ∷ d ∷ m ∷ c ∷ []) = record {
  account_code = a;
  direction = d;
  amount_minor = int (read_ℤ m);
  currency = c;
}
read_parts _ = record { account_code = []; direction = []; amount_minor = nan; currency = [] }

pub read_line : Text → PublicEntryLine
read_line s = read_parts (split b':' s)

colon_free : (t : Text) → All IsPlain t → Lacks b':' t
colon_free t h = All-weaken IsPlain (λ c. c ≢ b':') t (λ c p. p.2) h

line_parts : PublicEntryLine → List Text
line_parts line = line.account_code ∷ line.direction ∷ show line.amount_minor ∷ line.currency ∷ []

line_text-join : (line : PublicEntryLine) → line_text line ≡ join b':' (line_parts line)
unfolding line_text join line_parts
line_text-join line = refl

line_parts-Lacks : (line : PublicEntryLine) → IsCleanLine line → All (Lacks b':') (line_parts line)
unfolding line_parts
line_parts-Lacks line h = (
  colon_free _ h.account,
  (
    colon_free _ h.direction,
    (colon_free _ (show-IsPlain line.amount_minor h.amount), (colon_free _ h.currency, tt)),
  ),
)

pub read_show : (x : Number) → IsInt x → int (read_ℤ (show x)) ≡ x
unfolding show
read_show x (z, e) = rw e (ap int (read_ℤ-show_ℤ z))

pub read_line-line_text :
    (line : PublicEntryLine) → IsCleanLine line → read_line (line_text line) ≡ line
unfolding read_line read_parts line_parts
read_line-line_text line h =
    rw (line_text-join line, split-join b':' line.account_code _ (line_parts-Lacks line h))
      λ i. record line { amount_minor = read_show line.amount_minor h.amount i }

-- Neither of the outer separators.
abbrev pub IsOuter : ℕ → Type 0
IsOuter c = (c ≢ b'|') × (c ≢ b';')

outer : (t : Text) → All IsPlain t → All IsOuter t
outer t h = All-weaken IsPlain IsOuter t (λ c p. (p.0, p.1)) h

colon-IsOuter : IsOuter b':'
colon-IsOuter = ground arith

pub line_text-IsOuter : (line : PublicEntryLine) → IsCleanLine line → All IsOuter (line_text line)
unfolding line_text
line_text-IsOuter line h = All-append IsOuter line.account_code _ (outer _ h.account) (
  colon-IsOuter,
  All-append IsOuter line.direction _ (outer _ h.direction) (
    colon-IsOuter,
    All-append IsOuter (show line.amount_minor) _
        (outer _ (show-IsPlain line.amount_minor h.amount)) (colon-IsOuter, outer _ h.currency),
  ),
)

truthy_before : (s t : Text) → is_truthy (s ++ b':' ∷ t) ≡ true
truthy_before [] t = refl
truthy_before (c ∷ s) t = refl

pub is_truthy-line_text : (line : PublicEntryLine) → is_truthy (line_text line) ≡ true
unfolding line_text
is_truthy-line_text line = truthy_before line.account_code _

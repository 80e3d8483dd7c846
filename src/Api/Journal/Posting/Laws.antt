-- ===== src/Api/Journal/Posting/Laws.antt =====
-- When the demo mode posts an entry.
use opentreasury.Prelude.{
  ℕ, ◌+◌, ◌<◌, ◌^◌, arith, ◌≡◌, inl, inr, Bool-cases, refl, sym, ap, ◌∙◌, Bool, true, false, List,
  [], ◌∷◌, filter, ◌&&◌, if◌then◌else◌,
}
use opentreasury.Prelude.Int.{ℤ, pos, ◌+ℤ◌, int_laws, +ℤ_assoc}
use opentreasury.Prelude.Predicates.{All}
use opentreasury.Prelude.Text.{codes, same}
use opentreasury.Platform.Number.{Number, nan, int}
use opentreasury.Platform.Sum.{sum, rounded, rounded_exact, size, size_add}
use opentreasury.Api.Journal.{Direction, debit, credit, spell_direction, JournalLine}
use opentreasury.Api.Journal.Posting.{is_debit, is_credit, sum_from, debits, credits}

abbrev pub is_side : Direction → Direction → Bool
is_side debit debit = true
is_side credit credit = true
is_side _ _ = false

abbrev pub value : Number → ℤ
value nan = pos 0
value (int z) = z

abbrev pub is_int : Number → Bool
is_int nan = false
is_int (int z) = true

-- The sum of the amounts on one side of an entry, among the lines that a test picks.
unfoldable pub side_sum : Direction → (JournalLine → Bool) → List JournalLine → ℤ
side_sum d p [] = pos 0
side_sum d p (line ∷ lines) =
    (if is_side d line.direction && p line then value line.amount_minor else pos 0)
    +ℤ side_sum d p lines

abbrev pub AllInts : List JournalLine → Type 0
AllInts = All (λ line. is_int line.amount_minor ≡ true)

abbrev pub any : JournalLine → Bool
any line = true

pub spell_debit : (d : Direction) → same (spell_direction d) (codes "DEBIT") ≡ is_side debit d
unfolding same
spell_debit debit = refl
spell_debit credit = refl

pub spell_credit : (d : Direction) → same (spell_direction d) (codes "CREDIT") ≡ is_side credit d
unfolding same
spell_credit debit = refl
spell_credit credit = refl

pub add_zero : (a : ℤ) → a +ℤ pos 0 ≡ a
add_zero a = omega int_laws

pub zero_add : (a : ℤ) → pos 0 +ℤ a ≡ a
zero_add a = omega int_laws

sum-value : (a : ℤ) (x : Number) → is_int x ≡ true → sum (int a) x ≡ int (rounded (a +ℤ value x))
unfolding sum
sum-value a nan h = cc
sum-value a (int z) h = refl

sum_nan : (a : ℤ) (x : Number) → is_int x ≡ false → sum (int a) x ≡ nan
unfolding sum
sum_nan a nan h = refl
sum_nan a (int z) h = cc

-- The sum of the absolute amounts of the lines.
unfoldable pub magnitude : List JournalLine → ℕ
magnitude [] = 0
magnitude (line ∷ lines) = size (value line.amount_minor) + magnitude lines

sum_from_nan : (lines : List JournalLine) → sum_from nan lines ≡ nan
unfolding sum_from sum
sum_from_nan [] = refl
sum_from_nan (line ∷ lines) = sum_from_nan lines

nan_ne_int : (z : ℤ) → ¬ (nan ≡ int z)
nan_ne_int z e = cc

-- The lines of one side have integer amounts.
abbrev pub SideInts : Direction → List JournalLine → Type 0
SideInts d = All (λ line. is_side d line.direction ≡ true → is_int line.amount_minor ≡ true)

-- The loop over the lines of one side. The test `q` is that of the source.
module _ (d : Direction) (q : JournalLine → Bool)
    (agree : (line : JournalLine) → q line ≡ is_side d line.direction) where
  sum_from-side_sum :
      (lines : List JournalLine) (a : ℤ)
      → SideInts d lines
      → size a + magnitude lines < 2 ^ 53
      → sum_from (int a) (filter q lines) ≡ int (a +ℤ side_sum d any lines)
  unfolding sum_from side_sum magnitude
  sum_from-side_sum [] a h small = ap int (sym (add_zero a))
  sum_from-side_sum (line ∷ lines) a (h, hs) small = elim (Bool-cases (is_side d line.direction)) [
    | inl e ↦
        let grown = size_add a (value line.amount_minor) in
        let exact : rounded (a +ℤ value line.amount_minor) ≡ a +ℤ value line.amount_minor =
          rounded_exact (a +ℤ value line.amount_minor) (omega (arith, grown, small)) in
        rw (agree line, e)
          (ap (λ s. sum_from s (filter q lines))
              (sum-value a line.amount_minor (h e) ∙ ap int exact)
            ∙ sum_from-side_sum lines (a +ℤ value line.amount_minor) hs
                (omega (arith, grown, small))
            ∙ ap int (+ℤ_assoc a (value line.amount_minor) (side_sum d any lines)))
    | inr e ↦
        rw (agree line, e, zero_add (side_sum d any lines))
          (sum_from-side_sum lines a hs (omega (arith, small)))
  ]

  pub SideInts-of_sum :
      (lines : List JournalLine) (a z : ℤ)
      → sum_from (int a) (filter q lines) ≡ int z
      → SideInts d lines
  unfolding sum_from
  SideInts-of_sum [] a z e = tt
  SideInts-of_sum (line ∷ lines) a z e = elim (Bool-cases (is_side d line.direction)) [
    | inr other ↦
        let rest : sum_from (int a) (filter q lines) ≡ int z = rw (agree line, other) at e in
        (λ side. cc, SideInts-of_sum lines a z rest)
    | inl side ↦
        let rest : sum_from (sum (int a) line.amount_minor) (filter q lines) ≡ int z =
          rw (agree line, side) at e in
        elim (Bool-cases (is_int line.amount_minor)) [
          | inl whole ↦ (
            λ _. whole,
            SideInts-of_sum lines (rounded (a +ℤ value line.amount_minor)) z (
                sym (ap (λ s. sum_from s (filter q lines)) (sum-value a line.amount_minor whole))
                ∙ rest),
          )
          | inr broken ↦ absurd (
              nan_ne_int z (
                sym (sum_from_nan (filter q lines))
                ∙ sym (ap (λ s. sum_from s (filter q lines)) (sum_nan a line.amount_minor broken))
                ∙ rest))
        ]
  ]

-- Both sides together are all lines.
pub AllInts-of_sides :
    (lines : List JournalLine) → SideInts debit lines → SideInts credit lines → AllInts lines
AllInts-of_sides [] h k = tt
AllInts-of_sides (line ∷ lines) (h, hs) (k, ks) =
    (go line.direction h k, AllInts-of_sides lines hs ks)
  where
    go :
        (d : Direction)
        → (is_side debit d ≡ true → is_int line.amount_minor ≡ true)
        → (is_side credit d ≡ true → is_int line.amount_minor ≡ true)
        → is_int line.amount_minor ≡ true
    go debit h k = h refl
    go credit h k = k refl

SideInts-of_all : (d : Direction) (lines : List JournalLine) → AllInts lines → SideInts d lines
SideInts-of_all d [] h = tt
SideInts-of_all d (line ∷ lines) (h, hs) = (λ _. h, SideInts-of_all d lines hs)

pub debits-side_sum :
    (lines : List JournalLine)
    → AllInts lines
    → magnitude lines < 2 ^ 53
    → debits lines ≡ int (side_sum debit any lines)
unfolding debits
debits-side_sum lines h small =
    sum_from-side_sum debit is_debit (λ line. spell_debit line.direction) lines (pos 0)
      (SideInts-of_all debit lines h) (omega (arith, small))
    ∙ ap int (zero_add _)

pub credits-side_sum :
    (lines : List JournalLine)
    → AllInts lines
    → magnitude lines < 2 ^ 53
    → credits lines ≡ int (side_sum credit any lines)
unfolding credits
credits-side_sum lines h small =
    sum_from-side_sum credit is_credit (λ line. spell_credit line.direction) lines (pos 0)
      (SideInts-of_all credit lines h) (omega (arith, small))
    ∙ ap int (zero_add _)

-- ===== src/Mobile/Money.antt =====
-- The amounts that apps/mobile/src/lib/format.ts shows (`formatMoney`) read back.
use opentreasury.Prelude.{
  ℕ, suc, ◌+◌, ◌*◌, ◌%◌, ◌≤◌, ◌≡◌, Bool, not, [], ◌∷◌, ◌++◌, filter, length, if◌then◌else◌, ltb,
  ◌==◌,
}
use opentreasury.Prelude.Int.{ℤ, neg_part}
use opentreasury.Prelude.Predicates.{All}
use opentreasury.Prelude.Text.{Text, codes}
use opentreasury.Platform.Decimal.{IsDigit, value}
use opentreasury.Platform.Sum.{size}
use opentreasury.Mobile.{by_threes}

abbrev is_no_comma : ℕ → Bool
is_no_comma c = not (c == b',')

-- A text without its commas.
abbrev pub plain : Text → Text
plain = filter is_no_comma

-- Groups of a comma and three digits.
pub data Groups : Text → Type 0 where
  done : Groups []
  group :
      {a b c : ℕ} {s : Text}
      → IsDigit a
      → IsDigit b
      → IsDigit c
      → Groups s
      → Groups (b',' ∷ a ∷ b ∷ c ∷ s)

-- Digits, at most three at first, and groups of three behind them.
pub record Grouped (s : Text) : Type 0 where
  pub head : Text
  pub groups : Text
  pub parts : s ≡ head ++ groups
  pub filled : 1 ≤ length head
  pub few : length head ≤ 3
  pub digits : All IsDigit head
  pub rest : Groups groups

abbrev commas : Text → Text
commas [] = []
commas (c ∷ s) = b',' ∷ by_threes (c ∷ s)

-- The digits in front are as many as are left over by threes.
record Front (n : ℕ) (s : Text) : Type 0 where
  head : Text
  groups : Text
  parts : s ≡ head ++ groups
  count : length head ≡ suc (n % 3)
  digits : All IsDigit head
  rest : Groups groups

-- What the shown amount is made of: the parts of the text behind the currency.
pub record Shown (z : ℤ) (text : Text) : Type 0 where
  pub sign : Text
  pub major : Text
  pub cents : Text
  pub parts : text ≡ sign ++ major ++ b'.' ∷ cents
  pub minus : sign ≡ (if ltb 0 (neg_part z) then codes "-" else [])
  pub grouped : Grouped major
  pub two : length cents ≡ 2
  pub amount : value 0 (plain major) * 100 + value 0 cents ≡ size z

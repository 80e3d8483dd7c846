-- ===== src/Api/Journal/Draft/Lines.antt =====
-- apps/web/src/routes/journal.tsx: the edits of the dialog's lines, and the amount that a line
-- stands for.
use opentreasury.Prelude.{
  ℕ, zero, suc, ◌+◌, ◌≤◌, ◌<◌, ◌≡◌, refl, ap, Bool, true, false, List, [], ◌∷◌, ◌++◌, Option,
  if◌then◌else◌, ◌==◌, ltb, length, length-append, arith, or_else,
}
use opentreasury.Prelude.Text.{Text, codes}
use opentreasury.Platform.Double.{Double, nan, finite, infinite, times, math_round}
use opentreasury.Platform.Double.Literal.{number}
use opentreasury.Api.Journal.{Direction, debit}
use opentreasury.Api.Journal.Draft.{DraftLine, empty_lines}

-- `Partial` of a line.
pub record Patch : Type 0 where
  pub account_code : Option Text
  pub direction : Option Direction
  pub amount : Option Text
  pub currency : Option Text

abbrev pub patch_line : Patch → DraftLine → DraftLine
patch_line patch line = record {
  account_code = or_else patch.account_code line.account_code;
  direction = or_else patch.direction line.direction;
  amount = or_else patch.amount line.amount;
  currency = or_else patch.currency line.currency;
}

-- `lines.map((line, i) => (i === index ? { ...line, ...patch } : line))`, from a position on.
unfoldable pub update_from : ℕ → ℕ → Patch → List DraftLine → List DraftLine
update_from i index patch [] = []
update_from i index patch (line ∷ lines) =
    (if i == index then patch_line patch line else line) ∷ update_from (suc i) index patch lines

unfoldable pub update_line : List DraftLine → ℕ → Patch → List DraftLine
unfolding update_from
update_line lines index patch = update_from 0 index patch lines

unfoldable pub add_line : List DraftLine → List DraftLine
add_line lines =
    lines
    ++ record { account_code = []; direction = debit; amount = []; currency = codes "USD" } ∷ []

-- `lines.filter((_, i) => i !== index)`, from a position on.
unfoldable pub remove_from : ℕ → ℕ → List DraftLine → List DraftLine
remove_from i index [] = []
remove_from i index (line ∷ lines) =
    let rest = remove_from (suc i) index lines in if i == index then rest else line ∷ rest

unfoldable pub remove_line : ℕ → List DraftLine → List DraftLine
unfolding remove_from
remove_line index lines = remove_from 0 index lines

-- Whether the lines have buttons that remove them.
unfoldable pub shows_remove : List DraftLine → Bool
shows_remove lines = ltb 2 (length lines)

-- `Number(amount) || 0`
abbrev pub or_zero : Double → Double
or_zero nan = finite false 0 1
or_zero (infinite negative) = infinite negative
or_zero (finite negative zero den) = finite false 0 1
or_zero (finite negative (suc num) den) = finite negative (suc num) den

-- `Math.round((Number(amount) || 0) * 100)`
unfoldable pub minor_amount : Text → Double
minor_amount amount = math_round (times (or_zero (number amount)) 100)

-- An edit of the lines that the dialog offers.
pub data Edit : List DraftLine → List DraftLine → Type 0 where
  added : (lines : List DraftLine) → Edit lines (add_line lines)
  updated :
      (lines : List DraftLine) (index : ℕ) (patch : Patch)
      → Edit lines (update_line lines index patch)
  removed :
      (lines : List DraftLine) (index : ℕ)
      → shows_remove lines ≡ true
      → Edit lines (remove_line index lines)

pub data Edited : List DraftLine → Type 0 where
  begun : Edited empty_lines
  edit : {before after : List DraftLine} → Edited before → Edit before after → Edited after

length-update_from :
    (i index : ℕ) (patch : Patch) (lines : List DraftLine)
    → length (update_from i index patch lines) ≡ length lines
unfolding update_from
length-update_from i index patch [] = refl
length-update_from i index patch (line ∷ lines) =
    ap suc (length-update_from (suc i) index patch lines)

remove_below :
    (i index : ℕ) (lines : List DraftLine) → index < i → remove_from i index lines ≡ lines
unfolding remove_from
remove_below i index [] h = refl
remove_below i index (line ∷ lines) h =
    let e : (i == index) ≡ false = ground arith in
    rw (e, remove_below (suc i) index lines (omega arith)) refl

length-remove_from :
    (i index : ℕ) (lines : List DraftLine) → length lines ≤ length (remove_from i index lines) + 1
unfolding remove_from
length-remove_from i index [] = omega arith
length-remove_from i index (line ∷ lines) =
    ground (arith, length-remove_from (suc i) index lines, remove_below (suc i) index lines)

-- Whatever is added, changed and removed, the entry that is drafted keeps at least two lines.
pub length-Edited : (lines : List DraftLine) → Edited lines → 2 ≤ length lines
unfolding add_line update_line remove_line shows_remove
length-Edited lines begun = omega arith
length-Edited lines (edit e (added before)) =
    omega (arith, length-Edited before e, length-append before)
length-Edited lines (edit e (updated before index patch)) =
    omega (arith, length-Edited before e, length-update_from 0 index patch before)
length-Edited lines (edit e (removed before index shows)) =
    ground (arith, shows, length-remove_from 0 index before)

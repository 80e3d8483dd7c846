-- ===== src/Tests/Api/Draft.antt =====
-- Posting a draft at concrete inputs.
use opentreasury.Prelude.{◌*◌, ◌≡◌, refl, true, [], ◌∷◌, none, some}
use opentreasury.Prelude.Int.{ℤ, pos, ◌+ℤ◌}
use opentreasury.Prelude.Text.{Text, codes}
use opentreasury.Platform.Number.{Number, of_ℕ}
use opentreasury.Platform.Decimal.{value}
use opentreasury.Platform.Sum.{sum, rounded, rounded_ℕ}
use opentreasury.Api.Request.{Env}
use opentreasury.Api.Post.{PostRequest, PostReply, unreachable, ok, demo_data}
use opentreasury.Api.Journal.{debit, credit}
use opentreasury.Api.Journal.Posting.{JournalEntryInput, post_journal_entry}
use opentreasury.Api.Journal.Draft.{Draft, is_balanced, payload, empty_lines, after_submit}
use opentreasury.Api.Journal.Draft.Demo.{post_journal_entry-Edited}
use opentreasury.Api.Journal.Draft.Lines.{Patch, Edited, begun, edit, updated, update_line}

abbrev demo : Env
demo = record { api_base_url = some []; token = none }

abbrev offline : PostRequest JournalEntryInput → PostReply Text
offline request = unreachable none

-- The fields as whole amounts in digits, and texts in capitals.
abbrev minor_of : Text → ℤ
minor_of s = pos (value 0 s * 100)

abbrev upper : Text → Text
upper s = s

abbrev year_of : Text → Number
year_of s = of_ℕ (value 0 s)

abbrev this_year : Number
this_year = of_ℕ 2026

abbrev draft : Draft
draft = record {
  is_open = true;
  id = codes "je-7";
  institution_id = codes "minfin";
  effective_date = codes "2026-07-01";
  description = codes "Fuel";
  lines =
      record {
        account_code = codes "22";
        direction = debit;
        amount = codes "75";
        currency = codes "USD";
      }
      ∷ record {
        account_code = codes "31";
        direction = credit;
        amount = codes "75";
        currency = codes "USD";
      }
      ∷ [];
}

draft_balanced : is_balanced minor_of upper year_of this_year draft ≡ true
unfolding is_balanced sum rounded rounded_ℕ ◌+ℤ◌
draft_balanced = refl

-- A line with its account and its amount.
abbrev filled : Text → Text → Patch
filled account amount = record {
  account_code = some account;
  direction = none;
  amount = some amount;
  currency = none;
}

two_edits : Edited (
    update_line
      (update_line empty_lines 0 (filled (codes "22") (codes "75")))
      1
      (filled (codes "31") (codes "75")))
two_edits = edit (edit begun (updated empty_lines 0 _)) (updated _ 1 _)

draft-Edited : Edited draft.lines
unfolding update_line
draft-Edited = two_edits

post_journal_entry-Edited_example :
    let outcome =
      post_journal_entry demo offline (payload minor_of upper year_of this_year draft) in
    (outcome ≡ ok 201 (demo_data draft.id)) × Edited (after_submit outcome draft).lines
post_journal_entry-Edited_example =
    post_journal_entry-Edited minor_of upper year_of this_year demo offline draft refl draft-Edited
      draft_balanced

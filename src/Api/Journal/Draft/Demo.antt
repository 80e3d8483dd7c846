-- ===== src/Api/Journal/Draft/Demo.antt =====
-- The dialog with the API client behind it, in the demo mode.
use opentreasury.Prelude.{◌≡◌, true}
use opentreasury.Prelude.Int.{ℤ}
use opentreasury.Prelude.Text.{Text}
use opentreasury.Platform.Number.{Number}
use opentreasury.Api.Post.{PostRequest, PostReply, ok, demo_data}
use opentreasury.Api.Request.{Env, is_demo}
use opentreasury.Api.Journal.Draft.{Draft, is_balanced, payload, after_submit}
use opentreasury.Api.Journal.Draft.Laws.{post_journal_entry-is_balanced}
use opentreasury.Api.Journal.Draft.Lines.{Edited, begun, length-Edited}
use opentreasury.Api.Journal.Posting.{JournalEntryInput, post_journal_entry}

module _ (minor_of : Text → ℤ) (upper : Text → Text) (year_of : Text → Number)
    (this_year : Number) where
  -- In demo mode, whatever edits of its lines the dialog was used for: if it calls the draft
  -- balanced, the entry is posted, and the lines of the dialog behind it are again ones that edits
  -- reach.
  pub post_journal_entry-Edited {ℓ} :
      {J : Type ℓ} (env : Env) (fetch : PostRequest JournalEntryInput → PostReply J) (draft : Draft)
      → is_demo env.api_base_url ≡ true
      → Edited draft.lines
      → is_balanced minor_of upper year_of this_year draft ≡ true
      → let outcome =
          post_journal_entry env fetch (payload minor_of upper year_of this_year draft) in
        (outcome ≡ ok 201 (demo_data draft.id)) × Edited (after_submit outcome draft).lines
  unfolding after_submit
  post_journal_entry-Edited env fetch draft demo edited balanced =
      let posted =
        post_journal_entry-is_balanced minor_of upper year_of this_year env fetch draft demo
          (length-Edited draft.lines edited) balanced in
      (posted, rw posted begun)

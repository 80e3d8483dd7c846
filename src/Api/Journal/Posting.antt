-- ===== src/Api/Journal/Posting.antt =====
-- apps/web/src/api.ts: `JournalEntryInput` and `postJournalEntry`. Amounts are in minor units, NaN or
-- integers; an amount with a fraction, which the source does not refuse, is not modelled. Sums are
-- rounded as those of doubles are.
pub mod Laws
pub mod Balance
use opentreasury.Prelude.{
  ℕ, Bool, true, false, not, ◌&&◌, List, [], ◌∷◌, Option, none, some, if◌then◌else◌, ltb, filter,
  length,
}
use opentreasury.Prelude.Text.{Text, codes, same, is_truthy}
use opentreasury.Platform.Number.{Number, eq, of_ℕ}
use opentreasury.Platform.Sum.{sum}
use opentreasury.Api.Request.{Env, is_ok, not_reachable}
use opentreasury.Api.Post.{
  PostRequest, post_request, PostPayload, malformed, json, PostReply, unreachable, response,
  ResultData, no_data, demo_data, body_data, ApiResult, ok, error, post_error,
}
use opentreasury.Api.Journal.{Direction, debit, credit, spell_direction, JournalLine}

pub record JournalEntryInput : Type 0 where
  pub id : Text
  pub institution_id : Text
  pub fiscal_year : Number
  pub effective_date : Text
  pub description : Text
  pub lines : List JournalLine

-- `line.direction === "DEBIT"`
abbrev pub is_debit : JournalLine → Bool
is_debit line = same (spell_direction line.direction) (codes "DEBIT")

abbrev pub is_credit : JournalLine → Bool
is_credit line = same (spell_direction line.direction) (codes "CREDIT")

-- `lines.reduce((sum, l) => sum + l.amountMinor, sum)`
unfoldable pub sum_from : Number → List JournalLine → Number
sum_from total [] = total
sum_from total (line ∷ lines) = sum_from (sum total line.amount_minor) lines

unfoldable pub debits : List JournalLine → Number
unfolding sum_from
debits lines = sum_from (of_ℕ 0) (filter is_debit lines)

unfoldable pub credits : List JournalLine → Number
unfolding sum_from
credits lines = sum_from (of_ℕ 0) (filter is_credit lines)

module _ {ℓ} {J : Type ℓ} where
  -- The demo mode's answer; the data of a success is `{ id }`.
  unfoldable pub simulate_post : JournalEntryInput → ApiResult Text J
  simulate_post entry =
      if ltb (length entry.lines) 2
      then error 400 (codes "a journal entry needs at least two lines")
      else if not (eq (debits entry.lines) (credits entry.lines))
      then error 400 (codes "entry debits and credits are not balanced per currency")
      else ok 201 (demo_data entry.id)

  -- The reading of the reply.
  unfoldable pub read_post : PostReply J → ApiResult Text J
  unfolding post_error
  read_post (unreachable reason) = error 0 not_reachable
  read_post (response status malformed) =
      if is_ok status then ok status no_data else error status (post_error {J = J} status malformed)
  read_post (response status (json value message)) =
      if is_ok status
      then ok status (body_data value)
      else error status (post_error status (json value message))

  unfoldable pub post_journal_entry :
      Env → (PostRequest JournalEntryInput → PostReply J) → JournalEntryInput → ApiResult Text J
  unfolding read_post
  post_journal_entry env fetch entry = elim env.api_base_url [
    | none ↦ simulate_post entry
    | some base ↦
        if is_truthy base
        then read_post (fetch (post_request env base (codes "/v1/journal-entries") entry))
        else simulate_post entry
  ]

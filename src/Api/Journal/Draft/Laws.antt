-- ===== src/Api/Journal/Draft/Laws.antt =====
-- What the dialog calls balanced, the demo mode posts.
use opentreasury.Prelude.{
  ◌≤◌, ◌≡◌, refl, ap, true, List, [], ◌∷◌, map, length, filter, arith, ◌⊎◌, inl, inr, suc,
}
use opentreasury.Prelude.Int.{ℤ}
use opentreasury.Prelude.Text.{Text, same}
use opentreasury.Platform.Number.{Number, int, of_ℕ}
use opentreasury.Platform.Sum.{sum}
use opentreasury.Api.Request.{Env, is_demo}
use opentreasury.Api.Post.{PostRequest, PostReply, ok, demo_data}
use opentreasury.Api.Journal.{Direction, debit, credit}
use opentreasury.Api.Journal.Posting.{
  JournalEntryInput, sum_from, debits, credits, is_debit, is_credit, simulate_post,
  post_journal_entry,
}
use opentreasury.Api.Journal.Draft.{
  DraftLine, Draft, totals_from, is_balanced, payload_line, payload,
}

direction_cases : (d : Direction) → (d ≡ debit) ⊎ (d ≡ credit)
direction_cases debit = inl refl
direction_cases credit = inr refl

length-map {ℓ κ} :
    {A : Type ℓ} {B : Type κ} (f : A → B) (xs : List A) → length (map f xs) ≡ length xs
length-map f [] = refl
length-map f (x ∷ xs) = ap suc (length-map f xs)

module _ (minor_of : Text → ℤ) (upper : Text → Text) (year_of : Text → Number)
    (this_year : Number) where
  totals-sums :
      (d c : Number) (lines : List DraftLine)
      → totals_from minor_of upper year_of this_year d c lines ≡ (
        sum_from d (filter is_debit (map (payload_line minor_of upper year_of this_year) lines)),
        sum_from c (filter is_credit (map (payload_line minor_of upper year_of this_year) lines)),
      )
  unfolding totals_from sum_from same
  totals-sums d c [] = refl
  totals-sums d c (line ∷ lines) = elim (direction_cases line.direction) [
    | inl e ↦ rw e (totals-sums (sum d (int (minor_of line.amount))) c lines)
    | inr e ↦ rw e (totals-sums d (sum c (int (minor_of line.amount))) lines)
  ]

  -- In demo mode the entry of a draft that the dialog calls balanced, with two lines or more, is
  -- posted.
  pub post_journal_entry-is_balanced {ℓ} :
      {J : Type ℓ} (env : Env) (fetch : PostRequest JournalEntryInput → PostReply J) (draft : Draft)
      → is_demo env.api_base_url ≡ true
      → 2 ≤ length draft.lines
      → is_balanced minor_of upper year_of this_year draft ≡ true
      → post_journal_entry env fetch (payload minor_of upper year_of this_year draft)
        ≡ ok 201 (demo_data draft.id)
  unfolding is_balanced payload post_journal_entry simulate_post debits credits
  post_journal_entry-is_balanced env fetch draft demo two balanced =
      let sums = totals-sums (of_ℕ 0) (of_ℕ 0) draft.lines in
      let equal = rw sums at balanced in
      ground (arith, length-map (payload_line minor_of upper year_of this_year) draft.lines, equal)

-- ===== src/Api/Journal/Posting/Balance.antt =====
-- Which entries the demo mode posts, and what its balance test leaves out.
use opentreasury.Prelude.{
  ◌<◌, ◌^◌, ℕ, suc, ◌≤◌, ◌≡◌, ◌≢◌, ◌⊎◌, inl, inr, refl, sym, ap, ◌∙◌, Bool, true, false, List, [],
  ◌∷◌, arith, length,
}
use opentreasury.Prelude.Int.{ℤ, pos, ◌+ℤ◌, eq_of_parts}
use opentreasury.Prelude.Predicates.{All}
use opentreasury.Prelude.Text.{Text, same, same_iff, same_refl}
use opentreasury.Platform.Number.{Number, nan, int, eq, of_ℕ}
use opentreasury.Platform.Sum.{sum, rounded}
use opentreasury.Api.Request.{Env, is_demo}
use opentreasury.Api.Post.{PostRequest, PostReply, ApiResult, ResultData, ok, error, demo_data}
use opentreasury.Api.Journal.{Direction, debit, credit, JournalLine}
use opentreasury.Api.Journal.Posting.{
  JournalEntryInput, is_debit, is_credit, sum_from, debits, credits, simulate_post,
  post_journal_entry,
}
use opentreasury.Api.Journal.Posting.Laws.{
  side_sum, magnitude, value, AllInts, any, debits-side_sum, credits-side_sum, AllInts-of_sides,
  SideInts-of_sum, spell_debit, spell_credit,
}

-- At least two lines, no amount that is NaN, and equal sums on both sides.
pub record IsPostable (entry : JournalEntryInput) : Type 0 where
  pub lines : 2 ≤ length entry.lines
  pub whole : AllInts entry.lines
  pub balanced : side_sum debit any entry.lines ≡ side_sum credit any entry.lines

eq_int : (x y : Number) → eq x y ≡ true → (z : ℤ) × (x ≡ int z) × (y ≡ int z)
eq_int nan y h = cc
eq_int (int a) nan h = cc
eq_int (int a) (int b) h = (a, refl, ap int (sym (eq_of_parts a b (ground arith))))

eq_self : (z : ℤ) → eq (int z) (int z) ≡ true
eq_self z = ground arith

sides_of_eq : (lines : List JournalLine) → eq (debits lines) (credits lines) ≡ true → AllInts lines
unfolding debits credits
sides_of_eq lines h =
    let (z, d, c) = eq_int (debits lines) (credits lines) h in
    AllInts-of_sides lines
      (SideInts-of_sum debit is_debit (λ line. spell_debit line.direction) lines (pos 0) z d)
      (SideInts-of_sum credit is_credit (λ line. spell_credit line.direction) lines (pos 0) z c)

balanced_of_eq :
    (lines : List JournalLine)
    → AllInts lines
    → magnitude lines < 2 ^ 53
    → eq (debits lines) (credits lines) ≡ true
    → side_sum debit any lines ≡ side_sum credit any lines
balanced_of_eq lines whole small h =
    let (z, d, c) = eq_int (debits lines) (credits lines) h in
    ap value
      (sym (debits-side_sum lines whole small) ∙ d ∙ sym c ∙ credits-side_sum lines whole small)

eq_of_balanced :
    (lines : List JournalLine)
    → AllInts lines
    → magnitude lines < 2 ^ 53
    → side_sum debit any lines ≡ side_sum credit any lines
    → eq (debits lines) (credits lines) ≡ true
eq_of_balanced lines whole small h =
    rw (debits-side_sum lines whole small, credits-side_sum lines whole small, h)
      (eq_self (side_sum credit any lines))

module _ {ℓ} {J : Type ℓ} (entry : JournalEntryInput) where
  -- Whatever the size of the sums.
  post_of_eq :
      2 ≤ length entry.lines
      → eq (debits entry.lines) (credits entry.lines) ≡ true
      → simulate_post {J = J} entry ≡ ok 201 (demo_data entry.id)
  unfolding simulate_post
  post_of_eq two equal = ground arith

  rejected_status : {s : ℕ} {m : Text} → simulate_post {J = J} entry ≡ error s m → s ≡ 400
  unfolding simulate_post
  rejected_status e = ground arith

  module _ (small : magnitude entry.lines < 2 ^ 53) where
    post_sound : {s : ℕ} {d : ResultData Text J} → simulate_post entry ≡ ok s d → IsPostable entry
    unfolding simulate_post
    post_sound e =
        let equal : eq (debits entry.lines) (credits entry.lines) ≡ true = ground arith in
        let whole = sides_of_eq entry.lines equal in
        record {
          lines = ground arith;
          whole = whole;
          balanced = balanced_of_eq entry.lines whole small equal;
        }

    post_complete : IsPostable entry → simulate_post {J = J} entry ≡ ok 201 (demo_data entry.id)
    post_complete p = post_of_eq p.lines (eq_of_balanced entry.lines p.whole small p.balanced)

    -- The demo mode posts an entry with status 201 exactly where it is postable, and refuses any
    -- other with status 400.
    simulate_post_lem :
        (IsPostable entry × (simulate_post {J = J} entry ≡ ok 201 (demo_data entry.id)))
        ⊎ ((m : Text) × (¬ IsPostable entry) × (simulate_post {J = J} entry ≡ error 400 m))
    simulate_post_lem = go (simulate_post entry) refl
      where
        go :
            (r : ApiResult Text J)
            → simulate_post entry ≡ r
            → (IsPostable entry × (simulate_post {J = J} entry ≡ ok 201 (demo_data entry.id)))
              ⊎ ((m : Text) × (¬ IsPostable entry) × (simulate_post {J = J} entry ≡ error 400 m))
        go (ok s d) e = inl (post_sound e, post_complete (post_sound e))
        go (error s m) e = inr (m, λ v. cc (post_complete v), rw (← rejected_status e) e)

-- For an entry whose amounts are integers or NaN, and whose integer amounts have absolute values
-- with a sum below 2 ^ 53: in demo mode it is posted with status 201 and its id if it has two lines
-- or more, no amount that is NaN, and equal sums of debits and credits; else it is refused with
-- status 400.
pub post_journal_entry-IsPostable {ℓ} :
    {J : Type ℓ} (env : Env) (fetch : PostRequest JournalEntryInput → PostReply J)
    (entry : JournalEntryInput)
    → is_demo env.api_base_url ≡ true
    → magnitude entry.lines < 2 ^ 53
    → (IsPostable entry × (post_journal_entry env fetch entry ≡ ok 201 (demo_data entry.id)))
      ⊎ ((m : Text) × (¬ IsPostable entry) × (post_journal_entry env fetch entry ≡ error 400 m))
unfolding post_journal_entry
post_journal_entry-IsPostable {J} env fetch entry demo small =
    elim (simulate_post_lem {J = J} entry small) [
      | inl (v, e) ↦ inl (v, ground arith)
      | inr (m, v, e) ↦ inr (m, v, ground arith)
    ]

-- The lines in one currency.
abbrev pub in_currency : Text → JournalLine → Bool
in_currency c line = same line.currency c

pub side_sum_single :
    (d : Direction) (c : Text) (lines : List JournalLine)
    → All (λ line. line.currency ≡ c) lines
    → side_sum d any lines ≡ side_sum d (in_currency c) lines
unfolding side_sum
side_sum_single d c [] h = refl
side_sum_single d c (line ∷ lines) (e, h) =
    let here : same line.currency c ≡ true = rw e (same_refl c) in
    rw (here, side_sum_single d c lines h)

-- A debit in one currency against a credit of the same amount in another.
abbrev pub crossed : JournalEntryInput → Text → Text → ℕ → Text → Text → JournalEntryInput
crossed entry c1 c2 n a1 a2 = record entry {
  lines =
      record { account_code = a1; direction = debit; amount_minor = of_ℕ n; currency = c1 }
      ∷ record { account_code = a2; direction = credit; amount_minor = of_ℕ n; currency = c2 }
      ∷ [];
}

-- Both sums are the one amount, rounded or not.
crossed_equal :
    (entry : JournalEntryInput) (c1 c2 a1 a2 : Text) (n : ℕ)
    → let lines = (crossed entry c1 c2 n a1 a2).lines in eq (debits lines) (credits lines) ≡ true
unfolding debits credits sum_from sum same
crossed_equal entry c1 c2 a1 a2 n = eq_self (rounded (pos 0 +ℤ pos n))

-- The demo mode posts a positive debit in one currency against a credit of the same amount in
-- another, though debits and credits differ in the first currency.
pub crossed_posted {ℓ} :
    {J : Type ℓ} (env : Env) (fetch : PostRequest JournalEntryInput → PostReply J)
    (entry : JournalEntryInput) (c1 c2 a1 a2 : Text) (n : ℕ)
    → is_demo env.api_base_url ≡ true
    → c1 ≢ c2
    → let e = crossed entry c1 c2 (suc n) a1 a2 in
      (post_journal_entry env fetch e ≡ ok 201 (demo_data entry.id))
      × (side_sum debit (in_currency c1) e.lines ≢ side_sum credit (in_currency c1) e.lines)
unfolding post_journal_entry side_sum ◌+ℤ◌
crossed_posted {J} env fetch entry c1 c2 a1 a2 n demo differ =
    let other : same c2 c1 ≡ false = ground (arith, same_iff c2 c1) in
    let posted =
      post_of_eq {J = J} (crossed entry c1 c2 (suc n) a1 a2) (omega arith)
        (crossed_equal entry c1 c2 a1 a2 (suc n)) in
    (ground arith, rw (same_refl c1, other) λ h. ground arith)

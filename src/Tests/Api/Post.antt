-- ===== src/Tests/Api/Post.antt =====
-- The posting operations at concrete inputs.
use mathlib.Core.List.{Memᴰ}
use opentreasury.Prelude.{ℕ, ◌≡◌, ◌≢◌, ◌↔◌, ◌⊎◌, refl, Bool, false, [], ◌∷◌, none, some, arith}
use opentreasury.Prelude.Int.{◌+ℤ◌}
use opentreasury.Prelude.Predicates.{All}
use opentreasury.Prelude.Text.{Text, codes}
use opentreasury.Platform.Number.{of_ℕ}
use opentreasury.Api.Request.{Env}
use opentreasury.Api.Post.{PostRequest, PostReply, unreachable, ok, error, demo_data}
use opentreasury.Api.Journal.{JournalLine, debit, credit}
use opentreasury.Api.Journal.Posting.{JournalEntryInput, post_journal_entry}
use opentreasury.Api.Journal.Posting.Laws.{side_sum, magnitude, any}
use opentreasury.Api.Journal.Posting.Balance.{
  IsPostable, in_currency, crossed, post_journal_entry-IsPostable, crossed_posted, side_sum_single,
}
use opentreasury.Api.Transactions.{TreasuryTransaction, posted}
use opentreasury.Api.Transactions.Validation.{
  created, validation_response, validate_transaction, create_transaction,
}
use opentreasury.Api.Transactions.Validation.Laws.{IsValid, create-validate}
use opentreasury.Api.Commitments.{CommitmentListFilter, simulated_commitments, matching_commitments}
use opentreasury.Api.Commitments.Listing.{Fits}
use opentreasury.Api.Commitments.Creation.{CommitmentInput, new_commitment, create_commitment}
use opentreasury.Api.Commitments.Creation.Laws.{
  IsConsistent, create_commitment-IsConsistent, mem-create_commitment,
}

abbrev demo : Env
demo = record { api_base_url = none; token = none }

abbrev offline : {B : Type 0} → PostRequest B → PostReply ℕ
offline request = unreachable none

abbrev line : JournalLine
line = record {
  account_code = codes "6202";
  direction = debit;
  amount_minor = of_ℕ 125000;
  currency = codes "USD";
}

abbrev entry : JournalEntryInput
entry = record {
  id = codes "je-1";
  institution_id = codes "minfin";
  fiscal_year = of_ℕ 2026;
  effective_date = codes "2026-06-28";
  description = codes "Tax receipt";
  lines = line ∷ record line { direction = credit } ∷ [];
}

post_journal_entry-IsPostable_example :
    (IsPostable entry × (post_journal_entry demo offline entry ≡ ok 201 (demo_data entry.id)))
    ⊎ ((m : Text) × (¬ IsPostable entry) × (post_journal_entry demo offline entry ≡ error 400 m))
post_journal_entry-IsPostable_example =
    post_journal_entry-IsPostable demo offline entry refl (unfold magnitude in (omega arith))

kes_not_usd : codes "KES" ≢ codes "USD"
kes_not_usd e = ground arith

crossed_posted_example :
    (post_journal_entry demo offline
        (crossed entry (codes "KES") (codes "USD") 500 (codes "6202") (codes "114"))
      ≡ ok 201 (demo_data entry.id))
    × (side_sum debit
          (in_currency (codes "KES"))
          (crossed entry (codes "KES") (codes "USD") 500 (codes "6202") (codes "114")).lines
        ≢ side_sum credit
            (in_currency (codes "KES"))
            (crossed entry (codes "KES") (codes "USD") 500 (codes "6202") (codes "114")).lines)
crossed_posted_example =
    crossed_posted demo offline entry (codes "KES") (codes "USD") (codes "6202") (codes "114") 499
      refl kes_not_usd

side_sum_single_example :
    side_sum debit any entry.lines ≡ side_sum debit (in_currency (codes "USD")) entry.lines
side_sum_single_example = side_sum_single debit (codes "USD") entry.lines (refl, (refl, tt))

abbrev transaction : TreasuryTransaction
transaction = record {
  id = codes "txn-1";
  institution_id = codes "minfin";
  fiscal_year = of_ℕ 2026;
  amount_minor = of_ℕ 125000;
  currency = codes "USD";
  description = codes "Road maintenance payment";
  transaction_date = codes "2026-06-28";
  status = posted;
}

abbrev any_date : Text → Bool
any_date s = false

create-validate_example :
    (IsValid any_date transaction
      × (validate_transaction any_date demo offline transaction ≡ validation_response transaction)
      × (create_transaction any_date demo offline transaction
          ≡ ok 201 (demo_data (created transaction.id))))
    ⊎ ((m : Text) × (¬ IsValid any_date transaction)
        × (validate_transaction any_date demo offline transaction ≡ error 400 m)
        × (create_transaction any_date demo offline transaction ≡ error 400 m))
create-validate_example = create-validate any_date demo offline transaction refl

abbrev input : CommitmentInput
input = record {
  id = codes "com-9";
  institution_id = codes "minfin";
  fiscal_year = of_ℕ 2026;
  account_code = codes "22";
  description = codes "Office supplies";
  amount_minor = of_ℕ 4000;
  currency = codes "USD";
  committed_date = codes "2026-07-01";
}

simulated-IsConsistent : All IsConsistent simulated_commitments
unfolding ◌+ℤ◌
simulated-IsConsistent =
    (record { sum = refl; done = λ e. ground arith }, (record { sum = refl; done = λ e. refl }, tt))

create_commitment-IsConsistent_example :
    All IsConsistent (create_commitment demo offline input simulated_commitments).0
create_commitment-IsConsistent_example =
    create_commitment-IsConsistent demo offline input simulated_commitments simulated-IsConsistent

abbrev wanted : CommitmentListFilter
wanted = record {
  institution_id = some (codes "minfin");
  fiscal_year = some (of_ℕ 2026);
  status = none;
  page = none;
  page_size = none;
}

mem-create_commitment_example :
    Memᴰ
      (new_commitment input)
      (matching_commitments wanted (create_commitment demo offline input simulated_commitments).0)
    ↔ (((new_commitment input ≡ new_commitment input) × Fits wanted (new_commitment input))
        ⊎ Memᴰ (new_commitment input) (matching_commitments wanted simulated_commitments))
mem-create_commitment_example =
    mem-create_commitment demo offline input simulated_commitments wanted (new_commitment input)
      refl

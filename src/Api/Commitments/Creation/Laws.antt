-- ===== src/Api/Commitments/Creation/Laws.antt =====
-- How a creation changes the rows that the demo mode lists.
use mathlib.Core.List.{Memᴰ}
use mathlib.Core.List.Memᴰ
use opentreasury.Prelude.{◌≡◌, ◌↔◌, ◌⊎◌, inl, inr, refl, true, List, ◌∷◌, arith}
use opentreasury.Prelude.Predicates.{All}
use opentreasury.Prelude.Int.{◌+ℤ◌}
use opentreasury.Platform.Number.{Number, add, of_ℕ, int, nan}
use opentreasury.Api.Request.{Env, is_demo}
use opentreasury.Api.Post.{PostRequest, PostReply}
use opentreasury.Api.Commitments.{Commitment, settled, matching_commitments, CommitmentListFilter}
use opentreasury.Api.Commitments.Listing.{Fits, mem-matching_commitments}
use opentreasury.Api.Commitments.Creation.{CommitmentInput, new_commitment, create_commitment}

-- What is settled and what remains add up to the amount, and a settled commitment has nothing left.
pub record IsConsistent (c : Commitment) : Type 0 where
  pub sum : add c.settled_amount_minor c.remaining_amount_minor ≡ c.amount_minor
  pub done : c.status ≡ settled → c.remaining_amount_minor ≡ of_ℕ 0

add_zero_left : (x : Number) → add (of_ℕ 0) x ≡ x
add_zero_left nan = refl
add_zero_left (int z) = unfold ◌+ℤ◌ in ground arith

new_commitment-IsConsistent : (input : CommitmentInput) → IsConsistent (new_commitment input)
unfolding new_commitment
new_commitment-IsConsistent input = record {
  sum = add_zero_left input.amount_minor;
  done = λ e. cc;
}

store_cases {ℓ} :
    {J : Type ℓ} (env : Env) (fetch : PostRequest CommitmentInput → PostReply J)
    (input : CommitmentInput) (store : List Commitment)
    → ((create_commitment env fetch input store).0 ≡ new_commitment input ∷ store)
      ⊎ ((create_commitment env fetch input store).0 ≡ store)
unfolding create_commitment
store_cases env fetch input store = ground arith

store_in_demo {ℓ} :
    {J : Type ℓ} (env : Env) (fetch : PostRequest CommitmentInput → PostReply J)
    (input : CommitmentInput) (store : List Commitment)
    → is_demo env.api_base_url ≡ true
    → (create_commitment env fetch input store).0 ≡ new_commitment input ∷ store
unfolding create_commitment
store_in_demo env fetch input store demo = ground arith

-- Creating a commitment keeps all rows of the store consistent, in every mode.
pub create_commitment-IsConsistent {ℓ} :
    {J : Type ℓ} (env : Env) (fetch : PostRequest CommitmentInput → PostReply J)
    (input : CommitmentInput) (store : List Commitment)
    → All IsConsistent store
    → All IsConsistent (create_commitment env fetch input store).0
create_commitment-IsConsistent env fetch input store h = elim (store_cases env fetch input store) [
  | inl e ↦ rw e (new_commitment-IsConsistent input, h)
  | inr e ↦ rw e h
]

-- In demo mode a created commitment is listed from then on by each filter that it fits, and the
-- commitments listed before are listed still.
pub mem-create_commitment {ℓ} :
    {J : Type ℓ} (env : Env) (fetch : PostRequest CommitmentInput → PostReply J)
    (input : CommitmentInput) (store : List Commitment) (f : CommitmentListFilter) (c : Commitment)
    → is_demo env.api_base_url ≡ true
    → Memᴰ c (matching_commitments f (create_commitment env fetch input store).0)
      ↔ (((c ≡ new_commitment input) × Fits f c) ⊎ Memᴰ c (matching_commitments f store))
mem-create_commitment env fetch input store f c demo =
    let listed = mem-matching_commitments f (new_commitment input ∷ store) c in
    let before = mem-matching_commitments f store c in
    rw (store_in_demo env fetch input store demo) (
      λ m.
          let (mem, fits) = listed.0 m in
          elim (Memᴰ.cases_cons mem) [
            | inl here ↦ inl (here, fits)
            | inr later ↦ inr (before.1 (later, fits))
          ],
      λ s. elim s [
        | inl (here, fits) ↦ listed.1 (Memᴰ.head here, fits)
        | inr m ↦ let (later, fits) = before.0 m in listed.1 (Memᴰ.tail later, fits)
      ],
    )

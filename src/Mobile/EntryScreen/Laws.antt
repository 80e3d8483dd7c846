-- ===== src/Mobile/EntryScreen/Laws.antt =====
-- What the screen may show, whatever is received and pressed, and in whatever order the promises
-- settle.
use mathlib.Core.List.{Memᴰ}
use mathlib.Core.List.Memᴰ
use opentreasury.Prelude.{
  ◌≡◌, ◌↔◌, refl, Bool, true, false, List, [], ◌∷◌, ◌++◌, Option, none, some, arith,
}
use opentreasury.Prelude.Text.{Text, codes}
use opentreasury.Verify.{ProofResponse, canonical_entry_string, walk, verify_proof}
use opentreasury.Verify.Binding.{verify_proof_iff}
use opentreasury.Mobile.EntryScreen.{
  ProofQuery, EntryScreen, opened, begin, finish, reject, Verdict, verdict_of, verdict_text, View,
  loading, no_proof, detail,
}

-- What happened to the screen since it was opened, by the proofs that the query gave, the last one
-- first, and the proofs whose verification was begun. A press begins one of a proof that the
-- query gave; it may settle at any time later, also when the query has given another proof.
pub data Reached (sha256_hex : Text → Text)
    : List ProofResponse → List ProofResponse → EntryScreen → Type 0 where
  start : Reached sha256_hex [] [] opened
  receive :
      {held begun : List ProofResponse} {s : EntryScreen} (p : ProofResponse)
      → Reached sha256_hex held begun s
      → Reached sha256_hex (p ∷ held) begun s
  press :
      {held begun : List ProofResponse} {s : EntryScreen} (p : ProofResponse)
      → Memᴰ p held
      → Reached sha256_hex held begun s
      → Reached sha256_hex held (p ∷ begun) (begin (some p) s)
  settle :
      {held begun : List ProofResponse} {s : EntryScreen} (p : ProofResponse)
      → Memᴰ p begun
      → Reached sha256_hex held begun s
      → Reached sha256_hex held begun (finish sha256_hex (some p) s)
  break :
      {held begun : List ProofResponse} {s : EntryScreen}
      → Reached sha256_hex held begun s
      → Reached sha256_hex held begun (reject s)

-- The state of the query that has a proof.
abbrev pub answered : ProofResponse → ProofQuery
answered proof = record { data_ = some proof; is_loading = false; is_error = false }

-- The verdict in a view.
abbrev pub verdict_in : View → Option Verdict
verdict_in loading = none
verdict_in no_proof = none
verdict_in (detail title status caption lines anchored_via verdict button) = verdict

verdict_text_iff :
    (b : Bool) → (verdict_text b ≡ codes "✓ VERIFIED — anchored, unmodified") ↔ (b ≡ true)
verdict_text_iff true = (λ e. refl, λ e. refl)
verdict_text_iff false = (λ e. ground arith, λ e. cc)

-- The entry of a proof hashes to its leaf, and the leaf leads to the anchored root.
pub record IsAnchored (sha256_hex : Text → Text) (p : ProofResponse) : Type 0 where
  pub leaf : sha256_hex (canonical_entry_string p.entry) ≡ p.leaf_hash
  pub root : walk sha256_hex p.proof p.leaf_hash ≡ p.anchor.merkle_root

says :
    (sha256_hex : Text → Text) (p : ProofResponse)
    → ((verdict_of (verify_proof sha256_hex p)).text ≡ codes "✓ VERIFIED — anchored, unmodified")
      ↔ IsAnchored sha256_hex p
unfolding verdict_of
says sha256_hex p = (
  λ e.
      let (leaf, root) = (verify_proof_iff sha256_hex p).0 ((verdict_text_iff _).0 e) in
      record { leaf = leaf; root = root },
  λ a. (verdict_text_iff _).1 ((verify_proof_iff sha256_hex p).1 (a.leaf, a.root)),
)

-- A verdict tells of a proof: it names the hash of the proof's entry, and it reads "VERIFIED" exactly
-- where the proof is anchored.
pub record Tells (sha256_hex : Text → Text) (v : Verdict) (p : ProofResponse) : Type 0 where
  pub leaf : v.leaf ≡ codes "leaf " ++ sha256_hex (canonical_entry_string p.entry)
  pub says : (v.text ≡ codes "✓ VERIFIED — anchored, unmodified") ↔ IsAnchored sha256_hex p

-- ===== src/Verify/Web.antt =====
-- apps/web/src/components/verify-entry.tsx: `canonicalHash`, `hashPair` and `verify`, the
-- verification of the web client.
use mathlib.Core.List.{Memᴰ}
use opentreasury.Prelude.{
  ℕ, ◌≢◌, ◌&&◌, ◌||◌, ◌≡◌, refl, ap, inl, inr, Bool, Bool-cases, true, false, not, List, [], ◌∷◌,
  ◌++◌, none, some, arith, if◌then◌else◌, map, ◌==◌,
}
use opentreasury.Prelude.Text.{Text, codes, same, same_refl, same_iff, join}
use opentreasury.Prelude.Predicates.{All}
use opentreasury.Platform.Decimal.{show}
use opentreasury.Platform.Sort.{sort}
use opentreasury.Api.Request.{Env, Request, is_demo}
use opentreasury.Api.Journal.{
  JournalLine, JournalEntry, simulated_entries, spell_direction, spell_entry_status,
  spell_entry_type,
}
use opentreasury.Api.Proofs.{
  ProofEntry, EntryProof, EntryProofResult, ok, error, sha256_hex, journal_line_text, ProofReply,
  fetch_entry_proof, demo_leaf_hash, demo_proof, find_entry, simulate_proof, proof_of_found,
}
use opentreasury.Verify.{
  PublicEntryLine, PublicEntry, ProofStep, ProofResponse, line_text, canonical_entry_string, walk,
  verify_proof,
}

module _ (digest : List ℕ → List ℕ) where
  unfoldable pub canonical_hash : ProofEntry → Text
  canonical_hash entry =
      let lines = join b';' (sort (map journal_line_text entry.lines)) in
      let canonical = join b'|' (
        codes "v1"
        ∷ entry.id
        ∷ entry.institution_id
        ∷ show entry.fiscal_year
        ∷ entry.effective_date
        ∷ entry.status
        ∷ entry.entry_type
        ∷ lines
        ∷ []) in
      sha256_hex digest canonical

  unfoldable pub hash_pair : Text → Text → Text
  hash_pair left right = sha256_hex digest (left ++ right)

  -- The loop over the steps of a proof.
  unfoldable pub climb : List ProofStep → Text → Text
  unfolding hash_pair
  climb [] running = running
  climb (step ∷ steps) running =
      climb steps (if step.left then hash_pair step.hash running else hash_pair running step.hash)

pub data VerifyResult : Type 0 where
  verified : (leaf root backend anchored_at : Text) → VerifyResult
  failed : Text → VerifyResult
  unanchored : VerifyResult

-- The part of `verify` behind the reply.
unfoldable pub check : (List ℕ → List ℕ) → EntryProofResult → VerifyResult
unfolding canonical_hash climb
check digest (error status reason) = if status == 404 then unanchored else failed reason
check digest (ok p) =
    let recomputed = canonical_hash digest p.entry in
    let running = climb digest p.proof recomputed in
    if not (same recomputed p.leaf_hash)
    then failed (codes "The entry does not hash to the anchored leaf.")
    else if not (same running p.anchor.merkle_root)
    then failed (codes "The inclusion proof does not reach the anchored root.")
    else verified recomputed p.anchor.merkle_root p.anchor.backend p.anchor.anchored_at

unfoldable pub verify : (List ℕ → List ℕ) → Env → (Request → ProofReply) → Text → VerifyResult
unfolding check
verify digest env fetch entry_id = check digest (fetch_entry_proof digest env fetch entry_id)

abbrev pub is_verified : VerifyResult → Bool
is_verified (verified leaf root backend anchored_at) = true
is_verified (failed reason) = false
is_verified unanchored = false

-- A proof of the web client as the mobile client receives it.
abbrev pub public_line : JournalLine → PublicEntryLine
public_line l = record {
  account_code = l.account_code;
  direction = spell_direction l.direction;
  amount_minor = l.amount_minor;
  currency = l.currency;
}

abbrev pub public_entry : ProofEntry → PublicEntry
public_entry e = record {
  id = e.id;
  institution_id = e.institution_id;
  fiscal_year = e.fiscal_year;
  effective_date = e.effective_date;
  status = e.status;
  entry_type = e.entry_type;
  lines = map public_line e.lines;
}

abbrev pub public_response : EntryProof → ProofResponse
public_response p = record {
  entry = public_entry p.entry;
  anchor = p.anchor;
  leaf_hash = p.leaf_hash;
  proof = p.proof;
}

line_texts : (ls : List JournalLine) → map journal_line_text ls ≡ map line_text (map public_line ls)
unfolding journal_line_text line_text
line_texts [] = refl
line_texts (l ∷ ls) = ap (λ t. journal_line_text l ∷ t) (line_texts ls)

module _ (digest : List ℕ → List ℕ) where
  canonical_hash-public :
      (e : ProofEntry)
      → canonical_hash digest e ≡ sha256_hex digest (canonical_entry_string (public_entry e))
  unfolding canonical_hash canonical_entry_string
  canonical_hash-public e = rw (line_texts e.lines)

  climb-walk : (p : List ProofStep) (h : Text) → climb digest p h ≡ walk (sha256_hex digest) p h
  unfolding climb walk
  climb-walk [] h = refl
  climb-walk (s ∷ p) h = elim (Bool-cases s.left) [
    | inl e ↦ rw e (climb-walk p _)
    | inr e ↦ rw e (climb-walk p _)
  ]

-- The two clients agree: the web client shows a proof as verified exactly where the mobile client
-- does.
pub check-verify_proof :
    (digest : List ℕ → List ℕ) (p : EntryProof)
    → is_verified (check digest (ok p))
      ≡ (verify_proof (sha256_hex digest) (public_response p)).verified
unfolding check verify_proof
check-verify_proof digest p =
    rw
      (
        ← canonical_hash-public digest p.entry,
        ← climb-walk digest p.proof (canonical_hash digest p.entry),
      )
      (ground arith)

-- An entry of the demo mode as the public API shows it.
abbrev pub public_journal_entry : JournalEntry → PublicEntry
public_journal_entry e = record {
  id = e.id;
  institution_id = e.institution_id;
  fiscal_year = e.fiscal_year;
  effective_date = e.effective_date;
  status = spell_entry_status e.status;
  entry_type = spell_entry_type e.entry_type;
  lines = map public_line e.lines;
}

-- The hash of its canonical string.
abbrev pub demo_hash : (List ℕ → List ℕ) → JournalEntry → Text
demo_hash digest e = sha256_hex digest (canonical_entry_string (public_journal_entry e))

demo_hash-demo_leaf_hash :
    (digest : List ℕ → List ℕ) (e : JournalEntry) → demo_leaf_hash digest e ≡ demo_hash digest e
unfolding demo_leaf_hash canonical_entry_string
demo_hash-demo_leaf_hash digest e = rw (line_texts e.lines)

demo_checks :
    (digest : List ℕ → List ℕ) (e : JournalEntry)
    → check digest (ok (demo_proof digest e))
      ≡ verified
          (demo_leaf_hash digest e)
          (demo_leaf_hash digest e)
          (codes "transparency-log")
          (codes "2026-07-10T00:00:00Z")
unfolding check demo_proof canonical_hash demo_leaf_hash climb
demo_checks digest e = rw (same_refl (demo_leaf_hash digest e))

fetch_entry_proof-demo :
    (digest : List ℕ → List ℕ) (env : Env) (fetch : Request → ProofReply) (entry_id : Text)
    → is_demo env.api_base_url ≡ true
    → fetch_entry_proof digest env fetch entry_id
      ≡ proof_of_found digest (find_entry entry_id simulated_entries)
unfolding fetch_entry_proof simulate_proof
fetch_entry_proof-demo digest env fetch entry_id demo = ground arith

-- No two entries of the demo mode have one id.
unfoldable has_id : Text → List JournalEntry → Bool
has_id id [] = false
has_id id (e ∷ es) = same e.id id || has_id id es

unfoldable are_apart : List JournalEntry → Bool
are_apart [] = true
are_apart (e ∷ es) = not (has_id e.id es) && are_apart es

mem-has_id : (e : JournalEntry) (es : List JournalEntry) → Memᴰ e es → has_id e.id es ≡ true
unfolding has_id
mem-has_id e [] m = elim m [ ]
mem-has_id e (x ∷ es) (Memᴰ.head h) =
    let here : same x.id e.id ≡ true = rw h (same_refl x.id) in ground arith
mem-has_id e (x ∷ es) (Memᴰ.tail later) = let rest = mem-has_id e es later in ground arith

find_entry-mem :
    (e : JournalEntry) (es : List JournalEntry)
    → are_apart es ≡ true
    → Memᴰ e es
    → find_entry e.id es ≡ some e
unfolding find_entry are_apart
find_entry-mem e [] apart m = elim m [ ]
find_entry-mem e (x ∷ es) apart (Memᴰ.head h) = rw (h, same_refl x.id)
find_entry-mem e (x ∷ es) apart (Memᴰ.tail later) = elim (Bool-cases (same x.id e.id)) [
  | inl equal ↦
      let one : x.id ≡ e.id = (same_iff _ _).0 equal in
      let again : has_id x.id es ≡ true = rw one (mem-has_id e es later) in ground arith
  | inr other ↦ let rest = find_entry-mem e es (ground arith) later in rw other rest
]

find_entry-none :
    (id : Text) (es : List JournalEntry) → All (λ e. e.id ≢ id) es → find_entry id es ≡ none
unfolding find_entry
find_entry-none id [] h = refl
find_entry-none id (e ∷ es) (differ, h) = elim (Bool-cases (same e.id id)) [
  | inl equal ↦ absurd (differ ((same_iff _ _).0 equal))
  | inr other ↦ rw other (find_entry-none id es h)
]

simulated_entries_apart : are_apart simulated_entries ≡ true
unfolding are_apart has_id same
simulated_entries_apart = refl

-- In demo mode the client shows the proof of each entry that the demo mode knows as verified, with
-- the hash of that entry's canonical string as leaf and root; an id that no known entry has it
-- shows as not yet anchored.
pub verify_demo :
    (digest : List ℕ → List ℕ) (env : Env) (fetch : Request → ProofReply) (entry : JournalEntry)
    (entry_id : Text)
    → is_demo env.api_base_url ≡ true
    → Memᴰ entry simulated_entries
    → All (λ e. e.id ≢ entry_id) simulated_entries
    → (verify digest env fetch entry.id
        ≡ verified
            (demo_hash digest entry)
            (demo_hash digest entry)
            (codes "transparency-log")
            (codes "2026-07-10T00:00:00Z"))
      × (verify digest env fetch entry_id ≡ unanchored)
unfolding verify proof_of_found check
verify_demo digest env fetch entry entry_id demo m unknown = (
  rw
      (
        fetch_entry_proof-demo digest env fetch entry.id demo,
        find_entry-mem entry simulated_entries simulated_entries_apart m,
        ← demo_hash-demo_leaf_hash digest entry,
      )
      (demo_checks digest entry),
  rw
      (
        fetch_entry_proof-demo digest env fetch entry_id demo,
        find_entry-none entry_id simulated_entries unknown,
      )
      refl,
)

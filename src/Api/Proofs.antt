-- ===== src/Api/Proofs.antt =====
-- apps/web/src/api.ts: `EntryProof`, `fetchEntryProof` and `demoLeafHash`. SHA-256 over bytes
-- (`crypto.subtle.digest`) is a parameter.
use opentreasury.Prelude.{
  ℕ, ◌+◌, ◌-◌, ◌/◌, ◌%◌, List, [], ◌∷◌, ◌++◌, Option, none, some, if◌then◌else◌, map, ltb, or_else,
}
use opentreasury.Prelude.Text.{Text, codes, same, join, is_truthy}
use opentreasury.Platform.Number.{Number}
use opentreasury.Platform.Decimal.{show}
use opentreasury.Platform.Sort.{sort}
use opentreasury.Platform.Percent.{utf8, encode_component}
use opentreasury.Verify.{ProofStep, AnchorReceipt}
use opentreasury.Api.Request.{Env, Request, get_request, is_ok, status_text, not_reachable}
use opentreasury.Api.Journal.{
  spell_direction, spell_entry_status, spell_entry_type, JournalLine, JournalEntry,
  simulated_entries,
}

-- The entry of a proof.
pub record ProofEntry : Type 0 where
  pub id : Text
  pub institution_id : Text
  pub fiscal_year : Number
  pub effective_date : Text
  pub status : Text
  pub entry_type : Text
  pub lines : List JournalLine

pub record EntryProof : Type 0 where
  pub entry : ProofEntry
  pub anchor : AnchorReceipt
  pub leaf_hash : Text
  pub proof : List ProofStep

pub data EntryProofResult : Type 0 where
  ok : EntryProof → EntryProofResult
  error : ℕ → Text → EntryProofResult

-- `digit.toString(16)` below 16.
abbrev hex_digit : ℕ → ℕ
hex_digit d = if ltb d 10 then b'0' + d else b'a' + (d - 10)

-- `[...bytes].map((b) => b.toString(16).padStart(2, "0")).join("")`
unfoldable pub hex : List ℕ → Text
hex [] = []
hex (b ∷ bs) = hex_digit (b / 16) ∷ hex_digit (b % 16) ∷ hex bs

-- The hash of a text, in lowercase hex.
unfoldable pub sha256_hex : (List ℕ → List ℕ) → Text → Text
unfolding hex
sha256_hex digest s = hex (digest (utf8 s))

unfoldable pub journal_line_text : JournalLine → Text
journal_line_text l =
    l.account_code
    ++ b':' ∷ (spell_direction l.direction ++ b':' ∷ (show l.amount_minor ++ b':' ∷ l.currency))

unfoldable pub demo_leaf_hash : (List ℕ → List ℕ) → JournalEntry → Text
unfolding sha256_hex journal_line_text
demo_leaf_hash digest entry =
    let lines = join b';' (sort (map journal_line_text entry.lines)) in
    let canonical = join b'|' (
      codes "v1"
      ∷ entry.id
      ∷ entry.institution_id
      ∷ show entry.fiscal_year
      ∷ entry.effective_date
      ∷ spell_entry_status entry.status
      ∷ spell_entry_type entry.entry_type
      ∷ lines
      ∷ []) in
    sha256_hex digest canonical

-- `simulatedEntries.find((e) => e.id === entryId)`
unfoldable pub find_entry : Text → List JournalEntry → Option JournalEntry
find_entry id [] = none
find_entry id (e ∷ es) = if same e.id id then some e else find_entry id es

-- The proof that the demo mode makes up for an entry: a tree of one leaf.
unfoldable pub demo_proof : (List ℕ → List ℕ) → JournalEntry → EntryProof
unfolding demo_leaf_hash
demo_proof digest entry =
    let leaf_hash = demo_leaf_hash digest entry in
    record {
      entry = record {
        id = entry.id;
        institution_id = entry.institution_id;
        fiscal_year = entry.fiscal_year;
        effective_date = entry.effective_date;
        status = spell_entry_status entry.status;
        entry_type = spell_entry_type entry.entry_type;
        lines = entry.lines;
      };
      anchor = record {
        id = codes "anc-demo";
        merkle_root = leaf_hash;
        backend = codes "transparency-log";
        backend_ref = codes "tlog:1";
        anchored_at = codes "2026-07-10T00:00:00Z";
      };
      leaf_hash = leaf_hash;
      proof = [];
    }

-- What the reply holds: no JSON, or a JSON value. The source casts it to `EntryProof` without a
-- check, so it is read here as a proof, with the text of its field `error`, if it has one.
pub data ProofPayload : Type 0 where
  malformed : ProofPayload
  json : EntryProof → Option Text → ProofPayload

pub data ProofReply : Type 0 where
  unreachable : ProofReply
  response : ℕ → ProofPayload → ProofReply

-- The reading of the reply.
unfoldable pub read_proof : ProofReply → EntryProofResult
read_proof unreachable = error 0 not_reachable
read_proof (response status malformed) =
    if is_ok status then error 0 not_reachable else error status (status_text status)
read_proof (response status (json p message)) =
    if is_ok status then ok p else error status (or_else message (status_text status))

-- The demo mode's answer for the entry that was found, or was not.
unfoldable pub proof_of_found : (List ℕ → List ℕ) → Option JournalEntry → EntryProofResult
proof_of_found digest none = error 404 (codes "entry has no anchor yet")
proof_of_found digest (some entry) = ok (demo_proof digest entry)

unfoldable pub simulate_proof : (List ℕ → List ℕ) → Text → EntryProofResult
simulate_proof digest entry_id = proof_of_found digest (find_entry entry_id simulated_entries)

unfoldable pub fetch_entry_proof :
    (List ℕ → List ℕ) → Env → (Request → ProofReply) → Text → EntryProofResult
fetch_entry_proof digest env fetch entry_id = elim env.api_base_url [
  | none ↦ simulate_proof digest entry_id
  | some base ↦
      if is_truthy base
      then read_proof (
          fetch (
            get_request env base
              (codes "/v1/entries/" ++ encode_component entry_id ++ codes "/proof")))
      else simulate_proof digest entry_id
]

-- ===== src/Verify.antt =====
-- apps/mobile/src/lib/verify.ts: the entry that is hashed, its canonical string, the inclusion
-- proof, and `verifyProof`. SHA-256 is a parameter, as in the source, where it is injected; waiting
-- for its promise is left out.
pub mod Canonical
pub mod Injective
pub mod Binding
pub mod Tree
pub mod Web
pub mod Dialog
use opentreasury.Prelude.{Bool, true, false, ◌&&◌, List, [], ◌∷◌, ◌++◌, if◌then◌else◌, map}
use opentreasury.Prelude.Text.{Text, codes, same, join}
use opentreasury.Platform.Number.{Number}
use opentreasury.Platform.Decimal.{show}
use opentreasury.Platform.Sort.{sort}

pub record PublicEntryLine : Type 0 where
  pub account_code : Text
  pub direction : Text
  pub amount_minor : Number
  pub currency : Text

pub record PublicEntry : Type 0 where
  pub id : Text
  pub institution_id : Text
  pub fiscal_year : Number
  pub effective_date : Text
  pub status : Text
  pub entry_type : Text
  pub lines : List PublicEntryLine

pub record ProofStep : Type 0 where
  pub hash : Text
  pub left : Bool

pub record AnchorReceipt : Type 0 where
  pub id : Text
  pub merkle_root : Text
  pub backend : Text
  pub backend_ref : Text
  pub anchored_at : Text

pub record ProofResponse : Type 0 where
  pub entry : PublicEntry
  pub anchor : AnchorReceipt
  pub leaf_hash : Text
  pub proof : List ProofStep

-- `${accountCode}:${direction}:${amountMinor}:${currency}`
unfoldable pub line_text : PublicEntryLine → Text
line_text line =
    line.account_code
    ++ b':' ∷ (line.direction ++ b':' ∷ (show line.amount_minor ++ b':' ∷ line.currency))

unfoldable pub canonical_entry_string : PublicEntry → Text
unfolding line_text
canonical_entry_string entry =
    let lines = sort (map line_text entry.lines) in
    join b'|' (
      codes "v1"
      ∷ entry.id
      ∷ entry.institution_id
      ∷ show entry.fiscal_year
      ∷ entry.effective_date
      ∷ entry.status
      ∷ entry.entry_type
      ∷ join b';' lines
      ∷ [])

pub record VerificationResult : Type 0 where
  pub verified : Bool
  pub recomputed_leaf : Text
  pub recomputed_root : Text

-- The loop over the steps of a proof.
unfoldable pub walk : (Text → Text) → List ProofStep → Text → Text
walk sha256_hex [] running = running
walk sha256_hex (step ∷ steps) running =
    walk sha256_hex steps
      (sha256_hex (if step.left then step.hash ++ running else running ++ step.hash))

unfoldable pub verify_proof : (Text → Text) → ProofResponse → VerificationResult
unfolding walk
verify_proof sha256_hex response =
    let recomputed_leaf = sha256_hex (canonical_entry_string response.entry) in
    let running = walk sha256_hex response.proof recomputed_leaf in
    record {
      verified =
          same recomputed_leaf response.leaf_hash && same running response.anchor.merkle_root;
      recomputed_leaf = recomputed_leaf;
      recomputed_root = running;
    }

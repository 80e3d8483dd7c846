-- ===== src/Mobile/EntryScreen.antt =====
-- apps/mobile/src/app/entry/[id].tsx: the screen of an entry, with its verification on the device.
-- `useQuery` gives the state of the proof's request as an argument; `sha256Hex` is a parameter.
pub mod Laws
use opentreasury.Prelude.{
  Bool, true, false, not, List, [], ◌∷◌, ◌++◌, map, Option, none, some, if◌then◌else◌,
}
use opentreasury.Prelude.Text.{Text, codes}
use opentreasury.Platform.Decimal.{show}
use opentreasury.Verify.{PublicEntryLine, ProofResponse, VerificationResult, verify_proof}
use opentreasury.Mobile.{format_money}

pub record ProofQuery : Type 0 where
  pub data_ : Option ProofResponse
  pub is_loading : Bool
  pub is_error : Bool

pub record EntryScreen : Type 0 where
  pub result : Option VerificationResult
  pub checking : Bool

unfoldable pub opened : EntryScreen
opened = record { result = none; checking = false }

-- `runVerification`, up to the wait: whether it runs is whether the proof is there.
unfoldable pub begin : Option ProofResponse → EntryScreen → EntryScreen
begin none screen = screen
begin (some proof) screen = record screen { checking = true }

-- Behind the wait: `verifyProof` of the proof that was there, or its rejection.
unfoldable pub finish : (Text → Text) → Option ProofResponse → EntryScreen → EntryScreen
unfolding verify_proof
finish sha256_hex none screen = screen
finish sha256_hex (some proof) screen = record {
  result = some (verify_proof sha256_hex proof);
  checking = false;
}

unfoldable pub reject : EntryScreen → EntryScreen
reject screen = record screen { checking = false }

abbrev pub verdict_text : Bool → Text
verdict_text verified =
    if verified
    then codes "✓ VERIFIED — anchored, unmodified"
    else codes "✗ FAILED — does not match the anchored root"

pub record Verdict : Type 0 where
  pub text : Text
  pub leaf : Text
  pub root : Text

unfoldable pub verdict_of : VerificationResult → Verdict
verdict_of result = record {
  text = verdict_text result.verified;
  leaf = codes "leaf " ++ result.recomputed_leaf;
  root = codes "root " ++ result.recomputed_root;
}

unfoldable pub line_row : PublicEntryLine → Text × Text
line_row line = (
  line.account_code ++ codes " · " ++ line.direction,
  format_money line.amount_minor line.currency,
)

unfoldable pub button_text : EntryScreen → Text
button_text screen = if screen.checking then codes "Verifying…" else elim screen.result [
  | none ↦ codes "Verify on this device"
  | some result ↦ codes "Verify again"
]

pub data View : Type 0 where
  loading : View
  no_proof : View
  detail :
      (title status caption : Text) (lines : List (Text × Text)) (anchored_via : Text)
      (verdict : Option Verdict) (button : Text)
      → View

abbrev pub verdict_shown : Option VerificationResult → Option Verdict
verdict_shown none = none
verdict_shown (some result) = some (verdict_of result)

unfoldable pub proof_view : ProofResponse → EntryScreen → View
unfolding line_row button_text
proof_view proof screen =
    detail proof.entry.institution_id proof.entry.status
      (codes "FY"
        ++ show proof.entry.fiscal_year
        ++ codes " · "
        ++ proof.entry.effective_date
        ++ codes " · "
        ++ proof.entry.entry_type)
      (map line_row proof.entry.lines)
      (codes "Anchored via "
        ++ proof.anchor.backend
        ++ codes " ("
        ++ proof.anchor.backend_ref
        ++ codes ")")
      (verdict_shown screen.result) (button_text screen)

-- What the screen shows for the state of the request.
unfoldable pub entry_screen : ProofQuery → EntryScreen → View
unfolding proof_view
entry_screen query screen =
    if query.is_loading
    then loading
    else if query.is_error
    then no_proof
    else elim query.data_ [ none ↦ no_proof | some proof ↦ proof_view proof screen ]

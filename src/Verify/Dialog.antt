-- ===== src/Verify/Dialog.antt =====
-- apps/web/src/components/verify-entry.tsx: the dialog of an entry's verification.
use opentreasury.Prelude.{Bool, true, false, List, Option, none, some, ◌++◌, if◌then◌else◌}
use opentreasury.Prelude.Text.{Text, codes}
use opentreasury.Api.Proofs.{ProofReply}
use opentreasury.Api.Request.{Env, Request}
use opentreasury.Prelude.{ℕ}
use opentreasury.Verify.Web.{VerifyResult, verified, failed, unanchored, verify}

-- The state of the dialog and of its mutation.
pub record Dialog : Type 0 where
  pub is_open : Bool
  pub is_pending : Bool
  pub data_ : Option VerifyResult

-- A press of the button opens the dialog and starts the verification anew.
unfoldable pub press : Dialog → Dialog
press dialog = record { is_open = true; is_pending = true; data_ = none }

-- The end of the verification.
unfoldable pub settle : (List ℕ → List ℕ) → Env → (Request → ProofReply) → Text → Dialog → Dialog
unfolding verify
settle digest env fetch entry_id dialog = record dialog {
  is_pending = false;
  data_ = some (verify digest env fetch entry_id);
}

pub data Content : Type 0 where
  fetching : Content
  verified_content : (leaf root backend anchored_at : Text) → Content
  not_anchored : Content
  failed_content : (reason : Text) → Content
  nothing : Content

unfoldable pub content_of : Option VerifyResult → Content
content_of none = nothing
content_of (some (verified leaf root backend anchored_at)) =
    verified_content leaf root backend anchored_at
content_of (some unanchored) = not_anchored
content_of (some (failed reason)) = failed_content reason

unfoldable pub content : Dialog → Content
unfolding content_of
content dialog = if dialog.is_pending then fetching else content_of dialog.data_

unfoldable pub title : Text → Text
title entry_id = codes "Verify entry " ++ entry_id

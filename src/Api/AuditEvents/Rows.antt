-- ===== src/Api/AuditEvents/Rows.antt =====
-- apps/web/src/audit.ts: the rows of the audit feed, `toAuditRow` and `prependAuditRow`.
pub mod Laws
use opentreasury.Prelude.{
  ℕ, zero, suc, ◌≤◌, ◌≡◌, ◌≢◌, refl, ap, Bool, Bool-cases, true, false, not, List, [], ◌∷◌,
  if◌then◌else◌, filter, take, ◌++◌, length, arith, ◌==◌,
}
use opentreasury.Prelude.Text.{Text, codes, same, same_refl, same_iff}
use opentreasury.Prelude.Int.{pos}
use opentreasury.Platform.Number.{Number, int, of_ℕ}
use opentreasury.Platform.Slice.{slice}
use opentreasury.Api.AuditEvents.{AuditEvent, spell_event_type}

pub record AuditRow : Type 0 where
  pub id : Text
  pub event_type : Text
  pub transaction_id : Text
  pub institution : Text
  pub occurred_at : Text
  pub summary : Text

unfoldable pub format_event_type : Text → Text
format_event_type event_type =
    if same event_type (codes "TRANSACTION_CREATED")
    then codes "Transaction created"
    else event_type

-- `value.replace(c, by)`: the first occurrence of the character.
unfoldable pub replace : ℕ → Text → Text → Text
replace c by [] = []
replace c by (d ∷ s) = if d == c then by ++ s else d ∷ replace c by s

unfoldable pub format_audit_timestamp : Text → Text
unfolding replace
format_audit_timestamp value = replace b'Z' [] (replace b'T' (b' ' ∷ []) value)

unfoldable pub to_audit_row : AuditEvent → AuditRow
unfolding format_event_type format_audit_timestamp
to_audit_row event = record {
  id = event.id;
  event_type = format_event_type (spell_event_type event.event_type);
  transaction_id = event.transaction_id;
  institution = event.institution_id;
  occurred_at = format_audit_timestamp event.occurred_at;
  summary = event.summary;
}

unfoldable pub prepend_audit_row : List AuditRow → AuditRow → Number → List AuditRow
prepend_audit_row rows row limit =
    slice (row ∷ filter (λ current. not (same current.id row.id)) rows) (of_ℕ 0) limit

-- ===== src/Pages/Audit.antt =====
-- apps/web/src/routes/audit.tsx.
use opentreasury.Prelude.{List, [], ◌∷◌, map, Option, none, some}
use opentreasury.Prelude.Text.{codes}
use opentreasury.Platform.Query.{Query}
use opentreasury.Api.Institutions.{Institution}
use opentreasury.Api.Request.{ListResult, listed, failed}
use opentreasury.Api.AuditEvents.{AuditEvent, AuditEventListFilter}
use opentreasury.Api.AuditEvents.Rows.{AuditRow, to_audit_row}
use opentreasury.Table.Url.{page_of, page_size_of}
use opentreasury.Table.View.{Column, Fetched, data_table, table_props}
use opentreasury.Pages.{
  Host, PageView, filter_of, page_number, page_size_number, institution_options, select_of,
  dates_of, status_badge,
}

unfoldable pub columns : Host → List (Column AuditRow)
columns host =
    record { header = codes "Event"; cell = λ r. status_badge host.upper (codes "CREATED") }
    ∷ record { header = codes "Transaction"; cell = λ r. r.transaction_id ∷ [] }
    ∷ record { header = codes "Institution"; cell = λ r. r.institution ∷ [] }
    ∷ record { header = codes "Occurred"; cell = λ r. r.occurred_at ∷ [] }
    ∷ record { header = codes "Summary"; cell = λ r. r.summary ∷ [] }
    ∷ []

unfoldable pub api_filter : Host → Query → AuditEventListFilter
api_filter host q = record {
  institution_id = filter_of (codes "institutionId") q;
  date_from = filter_of (codes "dateFrom") q;
  date_to = filter_of (codes "dateTo") q;
  page = page_number host q;
  page_size = page_size_number host q;
  limit = none;
}

-- The result with its events as rows.
unfoldable pub audit_rows : Option (ListResult AuditEvent) → Option (ListResult AuditRow)
audit_rows none = none
audit_rows (some (failed reason)) = some (failed reason)
audit_rows (some (listed events pagination)) = some (listed (map to_audit_row events) pagination)

unfoldable pub audit_page :
    Host
    → Option (ListResult Institution)
    → (AuditEventListFilter → Fetched AuditEvent)
    → Query
    → PageView
audit_page host institutions use_audit_events q =
    let events = use_audit_events (api_filter host q) in
    record {
      title = codes "Audit trail";
      description = codes "Every recorded change, in order, with its origin.";
      controls =
          select_of (codes "Institution") (codes "institutionId") (institution_options institutions)
            q
          ∷ dates_of (codes "Occurred") q
          ∷ [];
      table = data_table (
          table_props (columns host)
            (record { result = audit_rows events.result; is_pending = events.is_pending })
            (page_of host.integer_of q) (page_size_of host.integer_of q)
            (codes "No audit events in this window."));
    }

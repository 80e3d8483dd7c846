-- ===== src/Api/AuditEvents.antt =====
-- apps/web/src/api.ts and audit.ts: audit events, their filter, path, demo rows and list function.
pub mod Listing
pub mod Rows
use opentreasury.Prelude.{
  ℕ, ◌≡◌, refl, Bool, true, false, not, ◌&&◌, List, [], ◌∷◌, Option, none, some, if◌then◌else◌,
  filter, take, or_else, ◌++◌,
}
use opentreasury.Prelude.Text.{Text, codes, same, starts_with}
use opentreasury.Prelude.Int.{negsuc}
use opentreasury.Platform.Number.{Number, is_truthy, of_ℕ, int}
use opentreasury.Platform.Decimal.{show}
use opentreasury.Platform.Query.{Query, set}
use opentreasury.Platform.Percent.{to_string}
use opentreasury.Api.Page.{Paging, page_window, paginate}
use opentreasury.Api.Params.{given, given_number, set_given, with_query}
use opentreasury.Api.Request.{
  Env, Request, Reply, ListResult, listed, run_list, fixed_error, message_error,
}
use opentreasury.Api.Filter.{
  equals_text, from_text, until_text, equals_number, from_number, until_number,
}
use opentreasury.Api.Transactions.{limit_without_page_size}

pub data EventType : Type 0 where
  transaction_created : EventType

abbrev pub spell_event_type : EventType → Text
spell_event_type transaction_created = codes "TRANSACTION_CREATED"

pub record AuditEvent : Type 0 where
  pub id : Text
  pub event_type : EventType
  pub transaction_id : Text
  pub institution_id : Text
  pub occurred_at : Text
  pub summary : Text

pub record AuditEventListFilter : Type 0 where
  pub institution_id : Option Text
  pub date_from : Option Text
  pub date_to : Option Text
  pub page : Option Number
  pub page_size : Option Number
  pub limit : Option Number

abbrev pub AuditEventListResult : Type 0
AuditEventListResult = ListResult AuditEvent

abbrev pub paging : AuditEventListFilter → Paging
paging f = record { page = f.page; page_size = f.page_size; limit = f.limit }

-- The parameters of `buildAuditEventsPath`.
unfoldable pub audit_events_query : AuditEventListFilter → Query
audit_events_query f =
    let q1 = set_given (codes "institutionId") (given f.institution_id) [] in
    let q2 = set_given (codes "dateFrom") (given f.date_from) q1 in
    let q3 = set_given (codes "dateTo") (given f.date_to) q2 in
    let q4 = set_given (codes "page") (given_number f.page) q3 in
    let q5 = set_given (codes "pageSize") (given_number f.page_size) q4 in
    set_given (codes "limit") (limit_without_page_size f.limit f.page_size) q5

unfoldable pub build_audit_events_path : AuditEventListFilter → Text
unfolding audit_events_query
build_audit_events_path f = with_query (codes "/v1/audit-events") (audit_events_query f)

abbrev pub simulated_audit_events : List AuditEvent
simulated_audit_events =
    record {
      id = codes "audit-txn-2026-0001-created";
      event_type = transaction_created;
      transaction_id = codes "txn-2026-0001";
      institution_id = codes "minfin";
      occurred_at = codes "2026-06-28T10:24:28Z";
      summary = codes "Transaction txn-2026-0001 was created.";
    }
    ∷ record {
      id = codes "audit-txn-2026-0000-created";
      event_type = transaction_created;
      transaction_id = codes "txn-2026-0000";
      institution_id = codes "transport";
      occurred_at = codes "2026-06-27T15:10:42Z";
      summary = codes "Transaction txn-2026-0000 was created.";
    }
    ∷ record {
      id = codes "audit-txn-2025-0942-created";
      event_type = transaction_created;
      transaction_id = codes "txn-2025-0942";
      institution_id = codes "health";
      occurred_at = codes "2025-12-18T09:45:00Z";
      summary = codes "Transaction txn-2025-0942 was created.";
    }
    ∷ []

-- The chain of filters of the demo mode.
unfoldable pub matching_audit_events : AuditEventListFilter → List AuditEvent → List AuditEvent
matching_audit_events f rows =
    let r1 = filter (λ x. equals_text f.institution_id x.institution_id) rows in
    let r2 = filter (λ x. from_text f.date_from (take 10 x.occurred_at)) r1 in
    filter (λ x. until_text f.date_to (take 10 x.occurred_at)) r2

-- The demo mode's answer.
unfoldable pub simulate_audit_event_list : AuditEventListFilter → AuditEventListResult
simulate_audit_event_list f =
    let (rows, pagination) =
      paginate (matching_audit_events f simulated_audit_events) (page_window (paging f)) in
    listed rows pagination

unfoldable pub list_audit_events :
    Env → AuditEventListFilter → (Request → Reply AuditEvent) → AuditEventListResult
list_audit_events env f fetch =
    run_list env (simulate_audit_event_list f) (build_audit_events_path f) (paging f) fixed_error
      fetch

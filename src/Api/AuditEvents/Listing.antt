-- ===== src/Api/AuditEvents/Listing.antt =====
-- The rows that the demo mode lists, and the request that a server receives.
use mathlib.Core.List.{Memᴰ}
use opentreasury.Prelude.{◌≡◌, ◌↔◌, refl, List, [], ◌∷◌, Option, true, arith, take}
use opentreasury.Prelude.Text.{Text, codes, same, le_text}
use opentreasury.Platform.Percent.Parse.{AllUnits}
use opentreasury.Api.Params.{given, given_number}
use opentreasury.Api.Params.Laws.{present, read_path, read_path-set_all, utf8_pairs}
use opentreasury.Api.Filter.Laws.{
  Wanted, equals_text_iff, from_text_iff, until_text_iff, mem_of_mem_filter, mem_filter_of_mem,
}
use opentreasury.Api.AuditEvents.{
  AuditEvent, AuditEventListFilter, build_audit_events_path, matching_audit_events,
}
use opentreasury.Api.Transactions.{limit_without_page_size}

-- What the filter asks of a row.
pub record Fits (f : AuditEventListFilter) (x : AuditEvent) : Type 0 where
  pub institution : Wanted f.institution_id (λ v. x.institution_id ≡ v)
  pub since : Wanted f.date_from (λ v. le_text v (take 10 x.occurred_at) ≡ true)
  pub until : Wanted f.date_to (λ v. le_text (take 10 x.occurred_at) v ≡ true)

-- The demo mode keeps a row exactly where it is one of the rows and fits each filter that is given;
-- an empty text, zero and NaN count as not given.
pub mem-matching_audit_events :
    (f : AuditEventListFilter) (rows : List AuditEvent) (x : AuditEvent)
    → Memᴰ x (matching_audit_events f rows) ↔ (Memᴰ x rows × Fits f x)
unfolding matching_audit_events
mem-matching_audit_events f rows x = (
  λ m.
      let (m2, h2) = mem_of_mem_filter _ _ m in
      let (m1, h1) = mem_of_mem_filter _ _ m2 in
      let (m0, h0) = mem_of_mem_filter _ _ m1 in
      (
        m0,
        record {
          institution = (equals_text_iff _ _).0 h0;
          since = (from_text_iff _ _).0 h1;
          until = (until_text_iff _ _).0 h2;
        },
      ),
  λ (m, fits).
      let m1 = mem_filter_of_mem _ _ m ((equals_text_iff f.institution_id _).1 fits.institution) in
      let m2 = mem_filter_of_mem _ _ m1 ((from_text_iff f.date_from _).1 fits.since) in
      mem_filter_of_mem _ _ m2 ((until_text_iff f.date_to _).1 fits.until),
)

-- The parameters that the path carries.
abbrev pub audit_event_params : AuditEventListFilter → List (Text × Option Text)
audit_event_params f =
    (codes "institutionId", given f.institution_id)
    ∷ (codes "dateFrom", given f.date_from)
    ∷ (codes "dateTo", given f.date_to)
    ∷ (codes "page", given_number f.page)
    ∷ (codes "pageSize", given_number f.page_size)
    ∷ (codes "limit", limit_without_page_size f.limit f.page_size)
    ∷ []

-- A server that splits the path at `?` and decodes the query reads the path of the endpoint and
-- exactly the filters that are given, in order.
pub read_path-build_audit_events_path :
    (f : AuditEventListFilter)
    → AllUnits (present (audit_event_params f))
    → read_path (build_audit_events_path f)
      ≡ (codes "/v1/audit-events", utf8_pairs (present (audit_event_params f)))
unfolding build_audit_events_path same
read_path-build_audit_events_path f h =
    read_path-set_all (codes "/v1/audit-events") (audit_event_params f) refl (omega arith) h

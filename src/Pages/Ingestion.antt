-- ===== src/Pages/Ingestion.antt =====
-- apps/web/src/routes/ingestion.tsx. The reason of a quarantined record, which the page shows as a
-- tooltip on its badge, is the second text of that cell.
use opentreasury.Prelude.{List, [], ◌∷◌, ◌++◌, ◌&&◌, Option, none, some, if◌then◌else◌}
use opentreasury.Prelude.Text.{Text, codes, same, is_truthy}
use opentreasury.Platform.Number.{Number, of_ℕ}
use opentreasury.Platform.Query.{Query}
use opentreasury.Api.Institutions.{Institution}
use opentreasury.Api.Request.{ListResult}
use opentreasury.Api.Journal.{JournalLine, debit, credit}
use opentreasury.Api.Staging.{StagingRecord, StagingListFilter, StagingStatus, spell_staging_status}
use opentreasury.Api.Transactions.Rows.{format_money}
use opentreasury.Table.Url.{page_of, page_size_of}
use opentreasury.Table.View.{Column, Fetched, data_table, table_props}
use opentreasury.Pages.{
  Host, PageView, filter_of, page_number, page_size_number, institution_options, select_of,
  status_badge,
}
use opentreasury.Pages.Accounts.{code_cell}

-- `record.lines.find((line) => line.direction === "DEBIT")`
unfoldable pub find_debit : List JournalLine → Option JournalLine
find_debit [] = none
find_debit (line ∷ lines) = elim line.direction [ debit ↦ some line | credit ↦ find_debit lines ]

unfoldable pub record_amount : StagingRecord → Text × Number
unfolding find_debit
record_amount staged = elim (find_debit staged.lines) [
  | none ↦ (codes "USD", of_ℕ 0)
  | some line ↦ (line.currency, line.amount_minor)
]

unfoldable pub reason_of : StagingStatus → Option Text → List Text
reason_of status none = []
reason_of status (some reason) =
    if same (spell_staging_status status) (codes "QUARANTINED") && is_truthy reason
    then reason ∷ []
    else []

unfoldable pub columns : Host → List (Column StagingRecord)
unfolding record_amount
columns host =
    record { header = codes "Source ref"; cell = λ r. r.source_ref ∷ r.source_system ∷ [] }
    ∷ record { header = codes "Institution"; cell = λ r. r.institution_id ∷ [] }
    ∷ record { header = codes "Occurred"; cell = λ r. r.occurred_at ∷ [] }
    ∷ record {
      header = codes "Amount";
      cell = λ r.
          let (currency, amount) = record_amount r in
          format_money host.to_locale currency amount ∷ [];
    }
    ∷ record {
      header = codes "Status";
      cell = λ r.
          status_badge host.upper (spell_staging_status r.status) ++ reason_of r.status r.reason;
    }
    ∷ record { header = codes "Journal entry"; cell = λ r. code_cell (codes "—" ∷ []) r.entry_id }
    ∷ []

unfoldable pub api_filter : Host → Query → StagingListFilter
api_filter host q = record {
  status = filter_of (codes "status") q;
  institution_id = filter_of (codes "institutionId") q;
  source_system = none;
  page = page_number host q;
  page_size = page_size_number host q;
}

unfoldable pub ingestion_page :
    Host
    → Option (ListResult Institution)
    → (StagingListFilter → Fetched StagingRecord)
    → Query
    → PageView
ingestion_page host institutions use_staging_records q = record {
  title = codes "Ingestion";
  description =
      codes
        "Records imported from source systems — posted to the journal or quarantined for review.";
  controls =
      select_of (codes "Status") (codes "status")
        (record { value = codes "POSTED"; label = codes "Posted" }
          ∷ record { value = codes "QUARANTINED"; label = codes "Quarantined" }
          ∷ [])
        q
      ∷ select_of (codes "Institution") (codes "institutionId") (institution_options institutions) q
      ∷ [];
  table = data_table (
      table_props (columns host) (use_staging_records (api_filter host q))
        (page_of host.integer_of q) (page_size_of host.integer_of q)
        (codes "No ingested records yet — drop a source-system export into the connector."));
}

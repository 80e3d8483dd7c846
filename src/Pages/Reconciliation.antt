-- ===== src/Pages/Reconciliation.antt =====
-- apps/web/src/routes/reconciliation.tsx.
pub mod Laws
use opentreasury.Prelude.{List, [], ◌∷◌, map, Option, none, some, if◌then◌else◌}
use opentreasury.Prelude.Text.{Text, codes, same, is_truthy}
use opentreasury.Platform.Number.{Number, eq, of_ℕ}
use opentreasury.Platform.Decimal.{show}
use opentreasury.Platform.Query.{Query}
use opentreasury.Platform.Sort.{sort}
use opentreasury.Api.Request.{ListResult, listed, failed}
use opentreasury.Api.Reconciliation.{
  ReconciliationRow, ReconciliationListFilter, spell_reconciliation_status,
}
use opentreasury.Api.Transactions.Rows.{format_money}
use opentreasury.Table.Filters.{Choice}
use opentreasury.Table.Url.{page_of, page_size_of}
use opentreasury.Table.View.{Column, Fetched, data_table, table_props}
use opentreasury.Pages.{
  Host, PageView, filter_of, number_of, page_number, page_size_number, same_label, select_of,
  status_badge,
}

abbrev pub fiscal_years : List Text
fiscal_years = codes "2024" ∷ codes "2025" ∷ codes "2026" ∷ codes "2027" ∷ []

abbrev pub discrepancy_cell : Host → Number → List Text
discrepancy_cell host discrepancy_minor =
    if eq discrepancy_minor (of_ℕ 0)
    then codes "—" ∷ []
    else format_money host.to_locale (codes "USD") discrepancy_minor ∷ []

unfoldable pub columns : Host → List (Column ReconciliationRow)
columns host =
    record { header = codes "Period"; cell = λ r. r.period ∷ [] }
    ∷ record { header = codes "Source system"; cell = λ r. r.source_system ∷ [] }
    ∷ record { header = codes "Staged"; cell = λ r. show r.staged_count ∷ [] }
    ∷ record { header = codes "Posted"; cell = λ r. show r.posted_count ∷ [] }
    ∷ record { header = codes "Quarantined"; cell = λ r. show r.quarantined_count ∷ [] }
    ∷ record {
      header = codes "Staged amount";
      cell = λ r. format_money host.to_locale (codes "USD") r.staged_amount_minor ∷ [];
    }
    ∷ record {
      header = codes "Posted amount";
      cell = λ r. format_money host.to_locale (codes "USD") r.posted_amount_minor ∷ [];
    }
    ∷ record { header = codes "Discrepancy"; cell = λ r. discrepancy_cell host r.discrepancy_minor }
    ∷ record {
      header = codes "Status";
      cell = λ r. status_badge host.upper (spell_reconciliation_status r.status);
    }
    ∷ []

unfoldable pub api_filter : Host → Query → ReconciliationListFilter
api_filter host q = record {
  source_system = filter_of (codes "sourceSystem") q;
  fiscal_year = number_of host.read_number (filter_of (codes "fiscalYear") q);
  page = page_number host q;
  page_size = page_size_number host q;
}

-- `sources.add(source)`: a set of strings is the list of them in order, each once.
unfoldable pub add_source : Text → List Text → List Text
add_source source [] = source ∷ []
add_source source (s ∷ sources) =
    if same s source then s ∷ sources else s ∷ add_source source sources

unfoldable pub add_sources : List ReconciliationRow → List Text → List Text
unfolding add_source
add_sources [] sources = sources
add_sources (row ∷ rows) sources = add_sources rows (add_source row.source_system sources)

abbrev pub chosen_source : Option Text → List Text
chosen_source none = []
chosen_source (some source) = if is_truthy source then source ∷ [] else []

abbrev pub result_rows : Option (ListResult ReconciliationRow) → List ReconciliationRow
result_rows none = []
result_rows (some (failed reason)) = []
result_rows (some (listed rows pagination)) = rows

-- The sources that the select offers, in order.
unfoldable pub source_values : Option Text → Option (ListResult ReconciliationRow) → List Text
unfolding add_sources sort
source_values source_system result =
    sort (add_sources (result_rows result) (chosen_source source_system))

unfoldable pub source_options : Option Text → Option (ListResult ReconciliationRow) → List Choice
source_options source_system result = map same_label (source_values source_system result)

unfoldable pub reconciliation_page :
    Host → (ReconciliationListFilter → Fetched ReconciliationRow) → Query → PageView
reconciliation_page host use_reconciliation q =
    let reconciliation = use_reconciliation (api_filter host q) in
    record {
      title = host.translate (codes "reconciliation.title");
      description = host.translate (codes "reconciliation.description");
      controls =
          select_of (host.translate (codes "reconciliation.sourceSystem")) (codes "sourceSystem")
            (source_options (filter_of (codes "sourceSystem") q) reconciliation.result) q
          ∷ select_of (host.translate (codes "reconciliation.fiscalYear")) (codes "fiscalYear")
              (map same_label fiscal_years) q
          ∷ [];
      table = data_table (
          table_props (columns host) reconciliation (page_of host.integer_of q)
            (page_size_of host.integer_of q) (host.translate (codes "reconciliation.empty")));
    }

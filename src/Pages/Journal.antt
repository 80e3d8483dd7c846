-- ===== src/Pages/Journal.antt =====
-- apps/web/src/routes/journal.tsx: the page. The dialog is in Api/Journal/Draft.
use opentreasury.Prelude.{List, [], ◌∷◌, Option, none, length}
use opentreasury.Prelude.Text.{codes}
use opentreasury.Platform.Decimal.{show_ℕ}
use opentreasury.Platform.Query.{Query}
use opentreasury.Api.Institutions.{Institution}
use opentreasury.Api.Request.{ListResult}
use opentreasury.Api.Journal.{JournalEntry, JournalEntryListFilter, spell_entry_status}
use opentreasury.Api.Journal.Draft.{entry_debit_total}
use opentreasury.Api.Transactions.Rows.{format_money}
use opentreasury.Table.Url.{page_of, page_size_of}
use opentreasury.Table.View.{Column, Fetched, data_table, table_props}
use opentreasury.Pages.{
  Host, PageView, filter_of, page_number, page_size_number, institution_options, select_of,
  dates_of, status_badge,
}

-- The last column shows the button that verifies the entry, whose text Verify/Web models.
unfoldable pub columns : Host → List (Column JournalEntry)
unfolding entry_debit_total
columns host =
    record { header = codes "Entry"; cell = λ e. e.id ∷ [] }
    ∷ record { header = codes "Institution"; cell = λ e. e.institution_id ∷ [] }
    ∷ record { header = codes "Effective"; cell = λ e. e.effective_date ∷ [] }
    ∷ record { header = codes "Description"; cell = λ e. e.description ∷ [] }
    ∷ record {
      header = codes "Amount";
      cell = λ e.
          let (currency, amount) = entry_debit_total e in
          format_money host.to_locale currency amount ∷ [];
    }
    ∷ record { header = codes "Lines"; cell = λ e. show_ℕ (length e.lines) ∷ [] }
    ∷ record {
      header = codes "Status";
      cell = λ e. status_badge host.upper (spell_entry_status e.status);
    }
    ∷ record { header = codes "Verify"; cell = λ e. [] }
    ∷ []

unfoldable pub api_filter : Host → Query → JournalEntryListFilter
api_filter host q = record {
  institution_id = filter_of (codes "institutionId") q;
  fiscal_year = none;
  status = filter_of (codes "status") q;
  date_from = filter_of (codes "dateFrom") q;
  date_to = filter_of (codes "dateTo") q;
  page = page_number host q;
  page_size = page_size_number host q;
}

unfoldable pub journal_page :
    Host
    → Option (ListResult Institution)
    → (JournalEntryListFilter → Fetched JournalEntry)
    → Query
    → PageView
journal_page host institutions use_journal_entries q = record {
  title = codes "Journal";
  description = codes "Balanced double-entry postings against the chart of accounts.";
  controls =
      select_of (codes "Institution") (codes "institutionId") (institution_options institutions) q
      ∷ select_of (codes "Status") (codes "status")
          (record { value = codes "POSTED"; label = codes "Posted" }
            ∷ record { value = codes "REVERSED"; label = codes "Reversed" }
            ∷ [])
          q
      ∷ dates_of (codes "Effective") q
      ∷ [];
  table = data_table (
      table_props (columns host) (use_journal_entries (api_filter host q))
        (page_of host.integer_of q) (page_size_of host.integer_of q)
        (codes "No journal entries match these filters."));
}

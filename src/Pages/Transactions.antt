-- ===== src/Pages/Transactions.antt =====
-- apps/web/src/routes/transactions.tsx.
use opentreasury.Prelude.{ℕ, zero, suc, ◌+◌, List, [], ◌∷◌, map, Option, none}
use opentreasury.Prelude.Text.{Text, codes}
use opentreasury.Platform.Number.{sub, of_ℕ}
use opentreasury.Platform.Decimal.{show}
use opentreasury.Platform.Query.{Query}
use opentreasury.Api.Institutions.{Institution}
use opentreasury.Api.Request.{ListResult}
use opentreasury.Api.Transactions.{TreasuryTransaction, TransactionListFilter, spell_status}
use opentreasury.Api.Transactions.Rows.{format_transaction_amount}
use opentreasury.Table.Url.{page_of, page_size_of}
use opentreasury.Table.View.{Column, Fetched, data_table, table_props}
use opentreasury.Pages.{
  Host, PageView, filter_of, number_of, page_number, page_size_number, institution_options,
  same_label, select_of, dates_of, amounts_of, status_badge,
}

-- `Array.from({ length }, (_, index) => String(currentYear + 1 - index))`, from an index on.
unfoldable pub years_from : ℕ → ℕ → ℕ → List Text
years_from current_year index zero = []
years_from current_year index (suc length) =
    show (sub (of_ℕ (current_year + 1)) (of_ℕ index)) ∷ years_from current_year (index + 1) length

unfoldable pub fiscal_years : ℕ → List Text
fiscal_years current_year = years_from current_year 0 8

unfoldable pub columns : Host → List (Column TreasuryTransaction)
columns host =
    record { header = codes "Transaction"; cell = λ t. t.id ∷ [] }
    ∷ record { header = codes "Institution"; cell = λ t. t.institution_id ∷ [] }
    ∷ record { header = codes "Fiscal year"; cell = λ t. show t.fiscal_year ∷ [] }
    ∷ record { header = codes "Date"; cell = λ t. t.transaction_date ∷ [] }
    ∷ record {
      header = codes "Amount";
      cell = λ t. format_transaction_amount host.to_locale t.currency t.amount_minor ∷ [];
    }
    ∷ record {
      header = codes "Status";
      cell = λ t. status_badge host.upper (spell_status t.status);
    }
    ∷ []

-- `apiFilter`
unfoldable pub api_filter : Host → Query → TransactionListFilter
api_filter host q = record {
  institution_id = filter_of (codes "institutionId") q;
  fiscal_year = number_of host.read_number (filter_of (codes "fiscalYear") q);
  status = filter_of (codes "status") q;
  date_from = filter_of (codes "dateFrom") q;
  date_to = filter_of (codes "dateTo") q;
  amount_gte = number_of host.read_number (filter_of (codes "amountGte") q);
  amount_lte = number_of host.read_number (filter_of (codes "amountLte") q);
  page = page_number host q;
  page_size = page_size_number host q;
  limit = none;
}

unfoldable pub transactions_page :
    Host
    → Option (ListResult Institution)
    → (TransactionListFilter → Fetched TreasuryTransaction)
    → Query
    → PageView
transactions_page host institutions use_transactions q = record {
  title = codes "Transactions";
  description = codes "Browse recorded treasury transactions.";
  controls =
      select_of (codes "Institution") (codes "institutionId") (institution_options institutions) q
      ∷ select_of (codes "Fiscal year") (codes "fiscalYear")
          (map same_label (fiscal_years host.current_year)) q
      ∷ select_of (codes "Status") (codes "status")
          (map same_label (codes "PENDING" ∷ codes "POSTED" ∷ codes "REJECTED" ∷ [])) q
      ∷ dates_of (codes "Date range") q
      ∷ amounts_of host q
      ∷ [];
  table = data_table (
      table_props (columns host) (use_transactions (api_filter host q)) (page_of host.integer_of q)
        (page_size_of host.integer_of q)
        (codes "No transactions match these filters. Widen the date range or clear a filter."));
}

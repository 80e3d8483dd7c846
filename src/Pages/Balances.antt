-- ===== src/Pages/Balances.antt =====
-- apps/web/src/routes/balances.tsx.
use opentreasury.Prelude.{List, [], ◌∷◌, Option, none, some, if◌then◌else◌}
use opentreasury.Prelude.Text.{Text, codes, is_truthy}
use opentreasury.Platform.Query.{Query}
use opentreasury.Api.Institutions.{Institution}
use opentreasury.Api.Request.{ListResult}
use opentreasury.Api.AuditEvents.Rows.{replace}
use opentreasury.Api.Balances.{Balance, BalanceListFilter}
use opentreasury.Api.Transactions.Rows.{format_money}
use opentreasury.Table.Url.{page_of, page_size_of}
use opentreasury.Table.View.{Column, Fetched, data_table, table_props}
use opentreasury.Pages.{
  Host, PageView, filter_of, page_number, page_size_number, institution_options, select_of,
}

-- `row.original.accountName || row.original.accountCode`
abbrev pub name_or : Text → Option Text → Text
name_or code none = code
name_or code (some name) = if is_truthy name then name else code

abbrev pub type_cell : Option Text → List Text
type_cell none = []
type_cell (some type) = if is_truthy type then replace b'_' (b' ' ∷ []) type ∷ [] else []

unfoldable pub columns : Host → List (Column Balance)
columns host =
    record {
      header = codes "Account";
      cell = λ b. name_or b.account_code b.account_name ∷ b.account_code ∷ [];
    }
    ∷ record { header = codes "Type"; cell = λ b. type_cell b.account_type }
    ∷ record { header = codes "Institution"; cell = λ b. b.institution_id ∷ [] }
    ∷ record { header = codes "Currency"; cell = λ b. b.currency ∷ [] }
    ∷ record {
      header = codes "Balance";
      cell = λ b. format_money host.to_locale b.currency b.balance_minor ∷ [];
    }
    ∷ []

unfoldable pub api_filter : Host → Query → BalanceListFilter
api_filter host q = record {
  institution_id = filter_of (codes "institutionId") q;
  account_code = none;
  page = page_number host q;
  page_size = page_size_number host q;
}

unfoldable pub balances_page :
    Host
    → Option (ListResult Institution)
    → (BalanceListFilter → Fetched Balance)
    → Query
    → PageView
balances_page host institutions use_balances q = record {
  title = codes "Balances";
  description = codes "Materialized stocks — the net posted position of each account.";
  controls =
      select_of (codes "Institution") (codes "institutionId") (institution_options institutions) q
      ∷ [];
  table = data_table (
      table_props (columns host) (use_balances (api_filter host q)) (page_of host.integer_of q)
        (page_size_of host.integer_of q)
        (codes "No balances yet — post a journal entry to move stocks."));
}

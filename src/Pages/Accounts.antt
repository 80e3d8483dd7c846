-- ===== src/Pages/Accounts.antt =====
-- apps/web/src/routes/accounts.tsx.
use opentreasury.Prelude.{List, [], ◌∷◌, ◌++◌, Option, none, some, if◌then◌else◌}
use opentreasury.Prelude.Text.{Text, codes, is_truthy}
use opentreasury.Platform.Number.{lt, of_ℕ}
use opentreasury.Platform.Query.{Query}
use opentreasury.Api.Accounts.{Account, AccountListFilter, spell_account_type}
use opentreasury.Api.AuditEvents.Rows.{replace}
use opentreasury.Table.Filters.{Choice}
use opentreasury.Table.Url.{page_of, page_size_of}
use opentreasury.Table.View.{Column, Fetched, data_table, table_props}
use opentreasury.Pages.{Host, PageView, filter_of, page_number, page_size_number, select_of}

abbrev pub account_types : List Choice
account_types =
    record { value = codes "REVENUE"; label = codes "Revenue" }
    ∷ record { value = codes "EXPENSE"; label = codes "Expense" }
    ∷ record { value = codes "ASSET"; label = codes "Asset" }
    ∷ record { value = codes "LIABILITY"; label = codes "Liability" }
    ∷ record { value = codes "NET_WORTH"; label = codes "Net worth" }
    ∷ []

-- A code that is shown where it is there, and the texts that stand for a missing one.
abbrev pub code_cell : List Text → Option Text → List Text
code_cell missing none = missing
code_cell missing (some code) = if is_truthy code then code ∷ [] else missing

unfoldable pub columns : List (Column Account)
columns =
    record { header = codes "Code"; cell = λ a. a.code ∷ [] }
    ∷ record {
      header = codes "Account";
      cell = λ a. (if lt (of_ℕ 0) a.depth then codes "└" ∷ [] else []) ++ a.name ∷ [];
    }
    ∷ record {
      header = codes "Type";
      cell = λ a. replace b'_' (b' ' ∷ []) (spell_account_type a.account_type) ∷ [];
    }
    ∷ record { header = codes "GFSM 2014"; cell = λ a. code_cell [] a.gfsm_code }
    ∷ record { header = codes "COFOG"; cell = λ a. code_cell (codes "—" ∷ []) a.cofog_code }
    ∷ []

unfoldable pub api_filter : Host → Query → AccountListFilter
api_filter host q = record {
  account_type = filter_of (codes "accountType") q;
  page = page_number host q;
  page_size = page_size_number host q;
}

unfoldable pub accounts_page : Host → (AccountListFilter → Fetched Account) → Query → PageView
accounts_page host use_accounts q = record {
  title = codes "Chart of accounts";
  description = codes "The active account classification — GFSM 2014 aligned, ordered by code.";
  controls = select_of (codes "Account type") (codes "accountType") account_types q ∷ [];
  table = data_table (
      table_props columns (use_accounts (api_filter host q)) (page_of host.integer_of q)
        (page_size_of host.integer_of q) (codes "No accounts of this type in the active chart."));
}

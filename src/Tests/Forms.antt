-- ===== src/Tests/Forms.antt =====
-- The forms of the web client at concrete inputs.
use opentreasury.Prelude.{ℕ, ◌≡◌, ◌≤◌, ◌⊎◌, none, some}
use opentreasury.Prelude.Text.{codes}
use opentreasury.Platform.Number.{of_ℕ}
use opentreasury.Forms.{HistoryFilterForm, to_transaction_list_filter}
use opentreasury.Forms.Laws.{to_transaction_list_filter_lem}

abbrev form : HistoryFilterForm
form = record { institution_id = codes " minfin "; fiscal_year = codes "2026"; limit = codes "250" }

to_transaction_list_filter_lem_example :
    (((to_transaction_list_filter form).limit ≡ none)
      ⊎ ((n : ℕ) × ((to_transaction_list_filter form).limit ≡ some (of_ℕ n)) × (1 ≤ n) × (n ≤ 100)))
    × (((to_transaction_list_filter form).fiscal_year ≡ none)
        ⊎ ((n : ℕ) × ((to_transaction_list_filter form).fiscal_year ≡ some (of_ℕ n)) × (1 ≤ n)))
to_transaction_list_filter_lem_example = to_transaction_list_filter_lem form

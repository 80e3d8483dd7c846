-- ===== src/Tests/Listing/Transactions.antt =====
-- The list of transactions at concrete filters.
use mathlib.Core.List.{Memᴰ}
use opentreasury.Prelude.{ℕ, ◌≡◌, ◌↔◌, refl, none, some, arith}
use opentreasury.Prelude.Text.{codes}
use opentreasury.Platform.Number.{of_ℕ}
use opentreasury.Api.Request.{Env, Request, Reply, unreachable}
use opentreasury.Api.Params.Laws.{present, read_path, utf8_pairs}
use opentreasury.Platform.Decimal.{show}
use opentreasury.Platform.Percent.Parse.{AllUnits}
use opentreasury.Tests.Data.{all_units_sound}
use opentreasury.Api.Transactions.{
  TreasuryTransaction, TransactionListFilter, simulated_transactions, list_transactions,
  build_transactions_path, posted,
}
use opentreasury.Api.Transactions.Proper.{IsProper}
use opentreasury.Api.Transactions.Sent.{fields, read_path-build_transactions_path}
use opentreasury.Api.Transactions.Listing.{Fits, page_of, rows_of, mem-list_transactions}

abbrev sample : TreasuryTransaction
sample = record {
  id = codes "txn-2026-0001";
  institution_id = codes "minfin";
  fiscal_year = of_ℕ 2026;
  amount_minor = of_ℕ 125000;
  currency = codes "USD";
  description = codes "Road maintenance payment";
  transaction_date = codes "2026-06-28";
  status = posted;
}

abbrev wanted : TransactionListFilter
wanted = record {
  institution_id = some (codes "minfin");
  fiscal_year = some (of_ℕ 2026);
  status = some (codes "POSTED");
  date_from = some (codes "2026-06-01");
  date_to = none;
  amount_gte = none;
  amount_lte = none;
  page = some (of_ℕ 2);
  page_size = some (of_ℕ 5);
  limit = some (of_ℕ 100);
}

wanted-IsProper : IsProper wanted
wanted-IsProper = record {
  institution = λ e. ground arith;
  year = (λ e. ground arith, λ e. ground arith);
  status = λ e. ground arith;
  since = λ e. ground arith;
  until = tt;
  above = tt;
  below = tt;
  page = (λ e. ground arith, λ e. ground arith);
  size = (λ e. ground arith, λ e. ground arith);
  limit = (λ e. ground arith, λ e. ground arith);
}

abbrev demo : Env
demo = record { api_base_url = none; token = none }

abbrev offline : Request → Reply TreasuryTransaction
offline request = unreachable none

mem-list_transactions_example :
    ((n : ℕ) × Memᴰ sample (rows_of (list_transactions demo (page_of wanted n 2) offline)))
    ↔ (Memᴰ sample simulated_transactions × Fits wanted sample)
mem-list_transactions_example =
    mem-list_transactions demo offline wanted 2 sample refl (omega arith) wanted-IsProper

wanted-AllUnits : AllUnits (present (fields wanted))
unfolding show
wanted-AllUnits = all_units_sound (present (fields wanted)) refl

read_path-build_transactions_path_example :
    read_path (build_transactions_path wanted)
    ≡ (codes "/v1/transactions", utf8_pairs (present (fields wanted)))
read_path-build_transactions_path_example =
    read_path-build_transactions_path wanted wanted-IsProper wanted-AllUnits

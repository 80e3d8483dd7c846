-- ===== src/Api/Balances.antt =====
-- apps/web/src/api.ts: account balances, their filter, path, demo rows and list function.
pub mod Listing
use opentreasury.Prelude.{
  ℕ, ◌≡◌, refl, Bool, true, false, not, ◌&&◌, List, [], ◌∷◌, Option, none, some, if◌then◌else◌,
  filter, take, or_else, ◌++◌,
}
use opentreasury.Prelude.Text.{Text, codes, same, starts_with}
use opentreasury.Prelude.Int.{negsuc}
use opentreasury.Platform.Number.{Number, is_truthy, of_ℕ, int}
use opentreasury.Platform.Decimal.{show}
use opentreasury.Platform.Query.{Query, set}
use opentreasury.Platform.Percent.{to_string}
use opentreasury.Api.Page.{Paging, page_window, paginate}
use opentreasury.Api.Params.{given, given_number, set_given, with_query}
use opentreasury.Api.Request.{
  Env, Request, Reply, ListResult, listed, run_list, fixed_error, message_error,
}
use opentreasury.Api.Filter.{
  equals_text, from_text, until_text, equals_number, from_number, until_number,
}

pub record Balance : Type 0 where
  pub institution_id : Text
  pub account_code : Text
  pub account_name : Option Text
  pub account_type : Option Text
  pub currency : Text
  pub balance_minor : Number

pub record BalanceListFilter : Type 0 where
  pub institution_id : Option Text
  pub account_code : Option Text
  pub page : Option Number
  pub page_size : Option Number

abbrev pub BalanceListResult : Type 0
BalanceListResult = ListResult Balance

abbrev pub paging : BalanceListFilter → Paging
paging f = record { page = f.page; page_size = f.page_size; limit = none }

-- The parameters of `buildBalancesPath`.
unfoldable pub balances_query : BalanceListFilter → Query
balances_query f =
    let q1 = set_given (codes "institutionId") (given f.institution_id) [] in
    let q2 = set_given (codes "accountCode") (given f.account_code) q1 in
    let q3 = set_given (codes "page") (given_number f.page) q2 in
    set_given (codes "pageSize") (given_number f.page_size) q3

unfoldable pub build_balances_path : BalanceListFilter → Text
unfolding balances_query
build_balances_path f = with_query (codes "/v1/balances") (balances_query f)

abbrev pub simulated_balances : List Balance
simulated_balances =
    record {
      institution_id = codes "minfin";
      account_code = codes "114";
      account_name = some (codes "Taxes on goods and services");
      account_type = some (codes "REVENUE");
      currency = codes "USD";
      balance_minor = int (negsuc 124999);
    }
    ∷ record {
      institution_id = codes "minfin";
      account_code = codes "22";
      account_name = some (codes "Use of goods and services");
      account_type = some (codes "EXPENSE");
      currency = codes "USD";
      balance_minor = of_ℕ 4000;
    }
    ∷ record {
      institution_id = codes "minfin";
      account_code = codes "6202";
      account_name = some (codes "Currency and deposits");
      account_type = some (codes "ASSET");
      currency = codes "USD";
      balance_minor = of_ℕ 121000;
    }
    ∷ []

-- The chain of filters of the demo mode.
unfoldable pub matching_balances : BalanceListFilter → List Balance → List Balance
matching_balances f rows =
    let r1 = filter (λ x. equals_text f.institution_id x.institution_id) rows in
    filter (λ x. equals_text f.account_code x.account_code) r1

-- The demo mode's answer.
unfoldable pub simulate_balance_list : BalanceListFilter → BalanceListResult
simulate_balance_list f =
    let (rows, pagination) =
      paginate (matching_balances f simulated_balances) (page_window (paging f)) in
    listed rows pagination

unfoldable pub list_balances :
    Env → BalanceListFilter → (Request → Reply Balance) → BalanceListResult
list_balances env f fetch =
    run_list env (simulate_balance_list f) (build_balances_path f) (paging f) fixed_error fetch

-- ===== src/Api/Accounts.antt =====
-- apps/web/src/api.ts: the chart of accounts, its filter, path, demo rows and list function.
pub mod Listing
use opentreasury.Prelude.{
  ℕ, ◌≡◌, refl, Bool, true, false, not, ◌&&◌, List, [], ◌∷◌, Option, none, some, if◌then◌else◌,
  filter, take, or_else, ◌++◌,
}
use opentreasury.Prelude.Text.{Text, codes, same, starts_with}
use opentreasury.Prelude.Int.{negsuc}
use opentreasury.Platform.Number.{Number, is_truthy, of_ℕ, int}
use opentreasury.Platform.Decimal.{show}
use opentreasury.Platform.Query.{Query, set}
use opentreasury.Platform.Percent.{to_string}
use opentreasury.Api.Page.{Paging, page_window, paginate}
use opentreasury.Api.Params.{given, given_number, set_given, with_query}
use opentreasury.Api.Request.{
  Env, Request, Reply, ListResult, listed, run_list, fixed_error, message_error,
}
use opentreasury.Api.Filter.{
  equals_text, from_text, until_text, equals_number, from_number, until_number,
}

pub data AccountType : Type 0 where
  asset liability net_worth revenue expense : AccountType

abbrev pub spell_account_type : AccountType → Text
spell_account_type asset = codes "ASSET"
spell_account_type liability = codes "LIABILITY"
spell_account_type net_worth = codes "NET_WORTH"
spell_account_type revenue = codes "REVENUE"
spell_account_type expense = codes "EXPENSE"

pub record Account : Type 0 where
  pub code : Text
  pub name : Text
  pub account_type : AccountType
  pub parent_code : Option Text
  pub gfsm_code : Option Text
  pub cofog_code : Option Text
  pub active : Bool
  pub depth : Number

pub record AccountListFilter : Type 0 where
  pub account_type : Option Text
  pub page : Option Number
  pub page_size : Option Number

abbrev pub AccountListResult : Type 0
AccountListResult = ListResult Account

abbrev pub paging : AccountListFilter → Paging
paging f = record { page = f.page; page_size = f.page_size; limit = none }

-- The parameters of `buildAccountsPath`.
unfoldable pub accounts_query : AccountListFilter → Query
accounts_query f =
    let q1 = set_given (codes "accountType") (given f.account_type) [] in
    let q2 = set_given (codes "page") (given_number f.page) q1 in
    set_given (codes "pageSize") (given_number f.page_size) q2

unfoldable pub build_accounts_path : AccountListFilter → Text
unfolding accounts_query
build_accounts_path f = with_query (codes "/v1/accounts") (accounts_query f)

abbrev pub simulated_accounts : List Account
simulated_accounts =
    record {
      code = codes "1";
      name = codes "Revenue";
      account_type = revenue;
      parent_code = none;
      gfsm_code = some (codes "1");
      cofog_code = none;
      active = true;
      depth = of_ℕ 0;
    }
    ∷ record {
      code = codes "11";
      name = codes "Taxes";
      account_type = revenue;
      parent_code = some (codes "1");
      gfsm_code = some (codes "11");
      cofog_code = none;
      active = true;
      depth = of_ℕ 1;
    }
    ∷ record {
      code = codes "114";
      name = codes "Taxes on goods and services";
      account_type = revenue;
      parent_code = some (codes "11");
      gfsm_code = some (codes "114");
      cofog_code = none;
      active = true;
      depth = of_ℕ 2;
    }
    ∷ record {
      code = codes "2";
      name = codes "Expense";
      account_type = expense;
      parent_code = none;
      gfsm_code = some (codes "2");
      cofog_code = none;
      active = true;
      depth = of_ℕ 0;
    }
    ∷ record {
      code = codes "21";
      name = codes "Compensation of employees";
      account_type = expense;
      parent_code = some (codes "2");
      gfsm_code = some (codes "21");
      cofog_code = none;
      active = true;
      depth = of_ℕ 1;
    }
    ∷ record {
      code = codes "22";
      name = codes "Use of goods and services";
      account_type = expense;
      parent_code = some (codes "2");
      gfsm_code = some (codes "22");
      cofog_code = none;
      active = true;
      depth = of_ℕ 1;
    }
    ∷ record {
      code = codes "62";
      name = codes "Financial assets";
      account_type = asset;
      parent_code = none;
      gfsm_code = some (codes "62");
      cofog_code = none;
      active = true;
      depth = of_ℕ 0;
    }
    ∷ record {
      code = codes "6202";
      name = codes "Currency and deposits";
      account_type = asset;
      parent_code = some (codes "62");
      gfsm_code = some (codes "6202");
      cofog_code = none;
      active = true;
      depth = of_ℕ 1;
    }
    ∷ record {
      code = codes "63";
      name = codes "Liabilities";
      account_type = liability;
      parent_code = none;
      gfsm_code = some (codes "63");
      cofog_code = none;
      active = true;
      depth = of_ℕ 0;
    }
    ∷ record {
      code = codes "6";
      name = codes "Net worth";
      account_type = net_worth;
      parent_code = none;
      gfsm_code = some (codes "6");
      cofog_code = none;
      active = true;
      depth = of_ℕ 0;
    }
    ∷ []

-- The chain of filters of the demo mode.
unfoldable pub matching_accounts : AccountListFilter → List Account → List Account
matching_accounts f rows =
    filter (λ x. equals_text f.account_type (spell_account_type x.account_type)) rows

-- The demo mode's answer.
unfoldable pub simulate_account_list : AccountListFilter → AccountListResult
simulate_account_list f =
    let (rows, pagination) =
      paginate (matching_accounts f simulated_accounts) (page_window (paging f)) in
    listed rows pagination

unfoldable pub list_accounts :
    Env → AccountListFilter → (Request → Reply Account) → AccountListResult
list_accounts env f fetch =
    run_list env (simulate_account_list f) (build_accounts_path f) (paging f) fixed_error fetch

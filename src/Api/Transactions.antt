-- ===== src/Api/Transactions.antt =====
-- apps/web/src/api.ts and history.ts: transactions, their list filter, the path of a list request,
-- the demo rows and the list function.
pub mod Validation
pub mod Proper
pub mod Listing
pub mod Sent
pub mod Rows
use opentreasury.Prelude.{
  ◌≡◌, refl, Bool, true, false, not, ◌&&◌, List, [], ◌∷◌, Option, none, some, if◌then◌else◌, filter,
}
use opentreasury.Prelude.Text.{Text, codes}
use opentreasury.Platform.Number.{Number, is_truthy, of_ℕ}
use opentreasury.Platform.Query.{Query}
use opentreasury.Api.Page.{Paging, page_window, paginate}
use opentreasury.Api.Params.{given, given_number, set_given, with_query}
use opentreasury.Api.Request.{Env, Request, Reply, ListResult, listed, run_list, fixed_error}
use opentreasury.Api.Filter.{
  equals_text, from_text, until_text, equals_number, from_number, until_number,
}

pub data TransactionStatus : Type 0 where
  pending posted rejected : TransactionStatus

abbrev pub spell_status : TransactionStatus → Text
spell_status pending = codes "PENDING"
spell_status posted = codes "POSTED"
spell_status rejected = codes "REJECTED"

pub record TreasuryTransaction : Type 0 where
  pub id : Text
  pub institution_id : Text
  pub fiscal_year : Number
  pub amount_minor : Number
  pub currency : Text
  pub description : Text
  pub transaction_date : Text
  pub status : TransactionStatus

pub record TransactionListFilter : Type 0 where
  pub institution_id : Option Text
  pub fiscal_year : Option Number
  pub status : Option Text
  pub date_from : Option Text
  pub date_to : Option Text
  pub amount_gte : Option Number
  pub amount_lte : Option Number
  pub page : Option Number
  pub page_size : Option Number
  pub limit : Option Number

abbrev pub TransactionListResult : Type 0
TransactionListResult = ListResult TreasuryTransaction

abbrev pub paging : TransactionListFilter → Paging
paging f = record { page = f.page; page_size = f.page_size; limit = f.limit }

-- `filter.limit && !filter.pageSize`
abbrev pub limit_without_page_size : Option Number → Option Number → Option Text
limit_without_page_size limit none = given_number limit
limit_without_page_size limit (some size) = if is_truthy size then none else given_number limit

-- The parameters of `buildTransactionsPath`.
unfoldable pub transactions_query : TransactionListFilter → Query
transactions_query f =
    let q1 = set_given (codes "institutionId") (given f.institution_id) [] in
    let q2 = set_given (codes "fiscalYear") (given_number f.fiscal_year) q1 in
    let q3 = set_given (codes "status") (given f.status) q2 in
    let q4 = set_given (codes "dateFrom") (given f.date_from) q3 in
    let q5 = set_given (codes "dateTo") (given f.date_to) q4 in
    let q6 = set_given (codes "amountGte") (given_number f.amount_gte) q5 in
    let q7 = set_given (codes "amountLte") (given_number f.amount_lte) q6 in
    let q8 = set_given (codes "page") (given_number f.page) q7 in
    let q9 = set_given (codes "pageSize") (given_number f.page_size) q8 in
    set_given (codes "limit") (limit_without_page_size f.limit f.page_size) q9

unfoldable pub build_transactions_path : TransactionListFilter → Text
unfolding transactions_query
build_transactions_path f = with_query (codes "/v1/transactions") (transactions_query f)

abbrev pub simulated_transactions : List TreasuryTransaction
simulated_transactions =
    record {
      id = codes "txn-2026-0001";
      institution_id = codes "minfin";
      fiscal_year = of_ℕ 2026;
      amount_minor = of_ℕ 125000;
      currency = codes "USD";
      description = codes "Road maintenance payment";
      transaction_date = codes "2026-06-28";
      status = posted;
    }
    ∷ record {
      id = codes "txn-2026-0000";
      institution_id = codes "transport";
      fiscal_year = of_ℕ 2026;
      amount_minor = of_ℕ 98000;
      currency = codes "USD";
      description = codes "Bridge inspection payment";
      transaction_date = codes "2026-06-27";
      status = posted;
    }
    ∷ record {
      id = codes "txn-2025-0942";
      institution_id = codes "health";
      fiscal_year = of_ℕ 2025;
      amount_minor = of_ℕ 450000;
      currency = codes "USD";
      description = codes "Clinic equipment procurement";
      transaction_date = codes "2025-12-18";
      status = posted;
    }
    ∷ []

-- The chain of filters in `simulateTransactionList`.
unfoldable pub matching_transactions :
    TransactionListFilter → List TreasuryTransaction → List TreasuryTransaction
matching_transactions f rows =
    let by_institution = filter (λ t. equals_text f.institution_id t.institution_id) rows in
    let by_year = filter (λ t. equals_number f.fiscal_year t.fiscal_year) by_institution in
    let by_status = filter (λ t. equals_text f.status (spell_status t.status)) by_year in
    let since = filter (λ t. from_text f.date_from t.transaction_date) by_status in
    let until = filter (λ t. until_text f.date_to t.transaction_date) since in
    let above = filter (λ t. from_number f.amount_gte t.amount_minor) until in
    filter (λ t. until_number f.amount_lte t.amount_minor) above

unfoldable pub simulate_transaction_list : TransactionListFilter → TransactionListResult
simulate_transaction_list f =
    let (rows, pagination) =
      paginate (matching_transactions f simulated_transactions) (page_window (paging f)) in
    listed rows pagination

unfoldable pub list_transactions :
    Env → TransactionListFilter → (Request → Reply TreasuryTransaction) → TransactionListResult
list_transactions env f fetch =
    run_list env (simulate_transaction_list f) (build_transactions_path f) (paging f) fixed_error
      fetch

-- ===== src/Api/Reconciliation.antt =====
-- apps/web/src/api.ts: reconciliation rows, their filter, request, demo rows and list function.
pub mod Listing
use opentreasury.Prelude.{
  ℕ, ◌≡◌, refl, Bool, true, false, not, ◌&&◌, List, [], ◌∷◌, Option, none, some, if◌then◌else◌,
  filter, take, or_else, ◌++◌,
}
use opentreasury.Prelude.Text.{Text, codes, same, starts_with}
use opentreasury.Prelude.Int.{negsuc}
use opentreasury.Platform.Number.{Number, is_truthy, of_ℕ, int}
use opentreasury.Platform.Decimal.{show}
use opentreasury.Platform.Query.{Query, set}
use opentreasury.Platform.Percent.{to_string}
use opentreasury.Api.Page.{Paging, page_window, paginate}
use opentreasury.Api.Params.{given, given_number, set_given, with_query}
use opentreasury.Api.Request.{
  Env, Request, Reply, ListResult, listed, run_list, fixed_error, message_error,
}
use opentreasury.Api.Filter.{
  equals_text, from_text, until_text, equals_number, from_number, until_number,
}
use opentreasury.Api.Filter.{starts_with_number}

pub data ReconciliationStatus : Type 0 where
  matched attention discrepancy : ReconciliationStatus

abbrev pub spell_reconciliation_status : ReconciliationStatus → Text
spell_reconciliation_status matched = codes "MATCHED"
spell_reconciliation_status attention = codes "ATTENTION"
spell_reconciliation_status discrepancy = codes "DISCREPANCY"

pub record ReconciliationRow : Type 0 where
  pub source_system : Text
  pub period : Text
  pub staged_count : Number
  pub posted_count : Number
  pub quarantined_count : Number
  pub staged_amount_minor : Number
  pub posted_amount_minor : Number
  pub discrepancy_minor : Number
  pub status : ReconciliationStatus

pub record ReconciliationListFilter : Type 0 where
  pub source_system : Option Text
  pub fiscal_year : Option Number
  pub page : Option Number
  pub page_size : Option Number

abbrev pub ReconciliationListResult : Type 0
ReconciliationListResult = ListResult ReconciliationRow

abbrev pub paging : ReconciliationListFilter → Paging
paging f = record { page = f.page; page_size = f.page_size; limit = none }

-- The parameters of `listReconciliation`: page and page size are always sent.
unfoldable pub reconciliation_query : ReconciliationListFilter → Query
reconciliation_query f =
    let q1 = set_given (codes "sourceSystem") (given f.source_system) [] in
    let q2 = set_given (codes "fiscalYear") (given_number f.fiscal_year) q1 in
    let q3 = set (codes "page") (show (or_else f.page (of_ℕ 1))) q2 in
    set (codes "pageSize") (show (or_else f.page_size (of_ℕ 15))) q3

unfoldable pub build_reconciliation_path : ReconciliationListFilter → Text
unfolding reconciliation_query
build_reconciliation_path f = codes "/v1/reconciliation?" ++ to_string (reconciliation_query f)

abbrev pub simulated_reconciliation : List ReconciliationRow
simulated_reconciliation =
    record {
      source_system = codes "itmis";
      period = codes "2026-07";
      staged_count = of_ℕ 7;
      posted_count = of_ℕ 5;
      quarantined_count = of_ℕ 1;
      staged_amount_minor = of_ℕ 74855075;
      posted_amount_minor = of_ℕ 74855075;
      discrepancy_minor = of_ℕ 0;
      status = attention;
    }
    ∷ record {
      source_system = codes "itmis";
      period = codes "2026-06";
      staged_count = of_ℕ 12;
      posted_count = of_ℕ 12;
      quarantined_count = of_ℕ 0;
      staged_amount_minor = of_ℕ 182640022;
      posted_amount_minor = of_ℕ 182640022;
      discrepancy_minor = of_ℕ 0;
      status = matched;
    }
    ∷ []

-- The chain of filters of the demo mode.
unfoldable pub matching_reconciliation :
    ReconciliationListFilter → List ReconciliationRow → List ReconciliationRow
matching_reconciliation f rows =
    let r1 = filter (λ x. equals_text f.source_system x.source_system) rows in
    filter (λ x. starts_with_number f.fiscal_year x.period) r1

-- The demo mode's answer.
unfoldable pub simulate_reconciliation_list : ReconciliationListFilter → ReconciliationListResult
simulate_reconciliation_list f =
    let (rows, pagination) =
      paginate (matching_reconciliation f simulated_reconciliation) (page_window (paging f)) in
    listed rows pagination

unfoldable pub list_reconciliation :
    Env → ReconciliationListFilter → (Request → Reply ReconciliationRow) → ReconciliationListResult
list_reconciliation env f fetch =
    run_list env (simulate_reconciliation_list f) (build_reconciliation_path f) (paging f)
      message_error fetch

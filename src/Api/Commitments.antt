-- ===== src/Api/Commitments.antt =====
-- apps/web/src/api.ts: commitments, their filter, request, demo rows and list function.
pub mod Listing
pub mod Creation
use opentreasury.Prelude.{
  ℕ, ◌≡◌, refl, Bool, true, false, not, ◌&&◌, List, [], ◌∷◌, Option, none, some, if◌then◌else◌,
  filter, take, or_else, ◌++◌,
}
use opentreasury.Prelude.Text.{Text, codes, same, starts_with}
use opentreasury.Prelude.Int.{negsuc}
use opentreasury.Platform.Number.{Number, is_truthy, of_ℕ, int}
use opentreasury.Platform.Decimal.{show}
use opentreasury.Platform.Query.{Query, set}
use opentreasury.Platform.Percent.{to_string}
use opentreasury.Api.Page.{Paging, page_window, paginate}
use opentreasury.Api.Params.{given, given_number, set_given, with_query}
use opentreasury.Api.Request.{
  Env, Request, Reply, ListResult, listed, run_list, fixed_error, message_error,
}
use opentreasury.Api.Filter.{
  equals_text, from_text, until_text, equals_number, from_number, until_number,
}

pub data CommitmentStatus : Type 0 where
  opened settled cancelled : CommitmentStatus

abbrev pub spell_commitment_status : CommitmentStatus → Text
spell_commitment_status opened = codes "OPEN"
spell_commitment_status settled = codes "SETTLED"
spell_commitment_status cancelled = codes "CANCELLED"

pub record Commitment : Type 0 where
  pub id : Text
  pub institution_id : Text
  pub fiscal_year : Number
  pub account_code : Text
  pub description : Text
  pub amount_minor : Number
  pub currency : Text
  pub committed_date : Text
  pub status : CommitmentStatus
  pub settled_amount_minor : Number
  pub remaining_amount_minor : Number

pub record CommitmentListFilter : Type 0 where
  pub institution_id : Option Text
  pub fiscal_year : Option Number
  pub status : Option Text
  pub page : Option Number
  pub page_size : Option Number

abbrev pub CommitmentListResult : Type 0
CommitmentListResult = ListResult Commitment

abbrev pub paging : CommitmentListFilter → Paging
paging f = record { page = f.page; page_size = f.page_size; limit = none }

-- The parameters of `listCommitments`: page and page size are always sent.
unfoldable pub commitments_query : CommitmentListFilter → Query
commitments_query f =
    let q1 = set_given (codes "institutionId") (given f.institution_id) [] in
    let q2 = set_given (codes "fiscalYear") (given_number f.fiscal_year) q1 in
    let q3 = set_given (codes "status") (given f.status) q2 in
    let q4 = set (codes "page") (show (or_else f.page (of_ℕ 1))) q3 in
    set (codes "pageSize") (show (or_else f.page_size (of_ℕ 15))) q4

unfoldable pub build_commitments_path : CommitmentListFilter → Text
unfolding commitments_query
build_commitments_path f = codes "/v1/commitments?" ++ to_string (commitments_query f)

abbrev pub simulated_commitments : List Commitment
simulated_commitments =
    record {
      id = codes "com-2026-0001";
      institution_id = codes "minfin";
      fiscal_year = of_ℕ 2026;
      account_code = codes "22";
      description = codes "Road maintenance framework contract";
      amount_minor = of_ℕ 50000000;
      currency = codes "USD";
      committed_date = codes "2026-06-15";
      status = opened;
      settled_amount_minor = of_ℕ 18500000;
      remaining_amount_minor = of_ℕ 31500000;
    }
    ∷ record {
      id = codes "com-2026-0002";
      institution_id = codes "health";
      fiscal_year = of_ℕ 2026;
      account_code = codes "22";
      description = codes "Vaccine cold-chain equipment";
      amount_minor = of_ℕ 12000000;
      currency = codes "USD";
      committed_date = codes "2026-05-02";
      status = settled;
      settled_amount_minor = of_ℕ 12000000;
      remaining_amount_minor = of_ℕ 0;
    }
    ∷ []

-- The chain of filters of the demo mode.
unfoldable pub matching_commitments : CommitmentListFilter → List Commitment → List Commitment
matching_commitments f rows =
    let r1 = filter (λ x. equals_text f.institution_id x.institution_id) rows in
    let r2 = filter (λ x. equals_number f.fiscal_year x.fiscal_year) r1 in
    filter (λ x. equals_text f.status (spell_commitment_status x.status)) r2

-- `listCommitments` over the rows of the demo mode, which the store holds.
unfoldable pub list_commitments :
    Env
    → List Commitment
    → CommitmentListFilter
    → (Request → Reply Commitment)
    → CommitmentListResult
list_commitments env store f fetch =
    let (rows, pagination) = paginate (matching_commitments f store) (page_window (paging f)) in
    run_list env (listed rows pagination) (build_commitments_path f) (paging f) message_error fetch

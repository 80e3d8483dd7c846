-- ===== src/Api/Institutions.antt =====
-- apps/web/src/api.ts and institutions.ts: institutions, their filter, path, demo rows and list function.
pub mod Listing
pub mod Rows
use opentreasury.Prelude.{
  ℕ, ◌≡◌, refl, Bool, true, false, not, ◌&&◌, List, [], ◌∷◌, Option, none, some, if◌then◌else◌,
  filter, take, or_else, ◌++◌,
}
use opentreasury.Prelude.Text.{Text, codes, same, starts_with}
use opentreasury.Prelude.Int.{negsuc}
use opentreasury.Platform.Number.{Number, is_truthy, of_ℕ, int}
use opentreasury.Platform.Decimal.{show}
use opentreasury.Platform.Query.{Query, set}
use opentreasury.Platform.Percent.{to_string}
use opentreasury.Api.Page.{Paging, page_window, paginate}
use opentreasury.Api.Params.{given, given_number, set_given, with_query}
use opentreasury.Api.Request.{
  Env, Request, Reply, ListResult, listed, run_list, fixed_error, message_error,
}
use opentreasury.Api.Filter.{
  equals_text, from_text, until_text, equals_number, from_number, until_number,
}

pub data InstitutionType : Type 0 where
  ministry department agency county : InstitutionType

abbrev pub spell_institution_type : InstitutionType → Text
spell_institution_type ministry = codes "MINISTRY"
spell_institution_type department = codes "DEPARTMENT"
spell_institution_type agency = codes "AGENCY"
spell_institution_type county = codes "COUNTY"

pub data InstitutionStatus : Type 0 where
  active inactive : InstitutionStatus

abbrev pub spell_institution_status : InstitutionStatus → Text
spell_institution_status active = codes "ACTIVE"
spell_institution_status inactive = codes "INACTIVE"

pub record Institution : Type 0 where
  pub id : Text
  pub name : Text
  pub type : InstitutionType
  pub country_code : Text
  pub status : InstitutionStatus

pub record InstitutionListFilter : Type 0 where
  pub status : Option Text
  pub page : Option Number
  pub page_size : Option Number
  pub limit : Option Number

abbrev pub InstitutionListResult : Type 0
InstitutionListResult = ListResult Institution

abbrev pub paging : InstitutionListFilter → Paging
paging f = record { page = f.page; page_size = f.page_size; limit = f.limit }

-- The parameters of `buildInstitutionsPath`.
unfoldable pub institutions_query : InstitutionListFilter → Query
institutions_query f =
    let q1 = set_given (codes "limit") (given_number f.limit) [] in
    let q2 = set_given (codes "status") (given f.status) q1 in
    let q3 = set_given (codes "page") (given_number f.page) q2 in
    set_given (codes "pageSize") (given_number f.page_size) q3

unfoldable pub build_institutions_path : InstitutionListFilter → Text
unfolding institutions_query
build_institutions_path f = with_query (codes "/v1/institutions") (institutions_query f)

abbrev pub simulated_institutions : List Institution
simulated_institutions =
    record {
      id = codes "minfin";
      name = codes "Ministry of Finance";
      type = ministry;
      country_code = codes "KE";
      status = active;
    }
    ∷ record {
      id = codes "health";
      name = codes "Ministry of Health";
      type = ministry;
      country_code = codes "KE";
      status = active;
    }
    ∷ record {
      id = codes "transport";
      name = codes "Transport Infrastructure Agency";
      type = agency;
      country_code = codes "KE";
      status = active;
    }
    ∷ []

-- The chain of filters of the demo mode.
unfoldable pub matching_institutions : InstitutionListFilter → List Institution → List Institution
matching_institutions f rows =
    filter (λ x. equals_text f.status (spell_institution_status x.status)) rows

-- The demo mode's answer.
unfoldable pub simulate_institution_list : InstitutionListFilter → InstitutionListResult
simulate_institution_list f =
    let (rows, pagination) =
      paginate (matching_institutions f simulated_institutions) (page_window (paging f)) in
    listed rows pagination

unfoldable pub list_institutions :
    Env → InstitutionListFilter → (Request → Reply Institution) → InstitutionListResult
list_institutions env f fetch =
    run_list env (simulate_institution_list f) (build_institutions_path f) (paging f) fixed_error
      fetch

-- ===== src/Api/Staging.antt =====
-- apps/web/src/api.ts: staging records, their filter, path, demo rows and list function.
pub mod Listing
use opentreasury.Prelude.{
  ℕ, ◌≡◌, refl, Bool, true, false, not, ◌&&◌, List, [], ◌∷◌, Option, none, some, if◌then◌else◌,
  filter, take, or_else, ◌++◌,
}
use opentreasury.Prelude.Text.{Text, codes, same, starts_with}
use opentreasury.Prelude.Int.{negsuc}
use opentreasury.Platform.Number.{Number, is_truthy, of_ℕ, int}
use opentreasury.Platform.Decimal.{show}
use opentreasury.Platform.Query.{Query, set}
use opentreasury.Platform.Percent.{to_string}
use opentreasury.Api.Page.{Paging, page_window, paginate}
use opentreasury.Api.Params.{given, given_number, set_given, with_query}
use opentreasury.Api.Request.{
  Env, Request, Reply, ListResult, listed, run_list, fixed_error, message_error,
}
use opentreasury.Api.Filter.{
  equals_text, from_text, until_text, equals_number, from_number, until_number,
}
use opentreasury.Api.Journal.{JournalLine, Direction, debit, credit}

pub data StagingStatus : Type 0 where
  posted quarantined : StagingStatus

abbrev pub spell_staging_status : StagingStatus → Text
spell_staging_status posted = codes "POSTED"
spell_staging_status quarantined = codes "QUARANTINED"

pub record StagingRecord : Type 0 where
  pub id : Text
  pub source_system : Text
  pub source_ref : Text
  pub profile : Text
  pub institution_id : Text
  pub occurred_at : Text
  pub status : StagingStatus
  pub reason : Option Text
  pub entry_id : Option Text
  pub created_at : Text
  pub lines : List JournalLine

pub record StagingListFilter : Type 0 where
  pub status : Option Text
  pub institution_id : Option Text
  pub source_system : Option Text
  pub page : Option Number
  pub page_size : Option Number

abbrev pub StagingListResult : Type 0
StagingListResult = ListResult StagingRecord

abbrev pub paging : StagingListFilter → Paging
paging f = record { page = f.page; page_size = f.page_size; limit = none }

-- The parameters of `buildStagingPath`.
unfoldable pub staging_records_query : StagingListFilter → Query
staging_records_query f =
    let q1 = set_given (codes "status") (given f.status) [] in
    let q2 = set_given (codes "institutionId") (given f.institution_id) q1 in
    let q3 = set_given (codes "sourceSystem") (given f.source_system) q2 in
    let q4 = set_given (codes "page") (given_number f.page) q3 in
    set_given (codes "pageSize") (given_number f.page_size) q4

unfoldable pub build_staging_records_path : StagingListFilter → Text
unfolding staging_records_query
build_staging_records_path f = with_query (codes "/v1/staging-records") (staging_records_query f)

abbrev pub simulated_staging : List StagingRecord
simulated_staging =
    record {
      id = codes "sr-1";
      source_system = codes "itmis";
      source_ref = codes "PAY-2026-1001";
      profile = codes "itmis@1";
      institution_id = codes "minfin";
      occurred_at = codes "2026-07-01";
      status = posted;
      reason = none;
      entry_id = some (codes "itmis-PAY-2026-1001");
      created_at = codes "2026-07-09T12:00:00Z";
      lines =
          (record {
            account_code = codes "22";
            direction = debit;
            amount_minor = of_ℕ 125050;
            currency = codes "USD";
          }
            ∷ record {
              account_code = codes "6202";
              direction = credit;
              amount_minor = of_ℕ 125050;
              currency = codes "USD";
            }
            ∷ []);
    }
    ∷ record {
      id = codes "sr-2";
      source_system = codes "itmis";
      source_ref = codes "PAY-2026-1005";
      profile = codes "itmis@1";
      institution_id = codes "ghost-ministry";
      occurred_at = codes "2026-07-03";
      status = quarantined;
      reason = some (codes "institution does not exist");
      entry_id = none;
      created_at = codes "2026-07-09T12:01:00Z";
      lines =
          (record {
            account_code = codes "22";
            direction = debit;
            amount_minor = of_ℕ 9900;
            currency = codes "USD";
          }
            ∷ record {
              account_code = codes "6202";
              direction = credit;
              amount_minor = of_ℕ 9900;
              currency = codes "USD";
            }
            ∷ []);
    }
    ∷ []

-- The chain of filters of the demo mode.
unfoldable pub matching_staging_records :
    StagingListFilter → List StagingRecord → List StagingRecord
matching_staging_records f rows =
    let r1 = filter (λ x. equals_text f.status (spell_staging_status x.status)) rows in
    let r2 = filter (λ x. equals_text f.institution_id x.institution_id) r1 in
    filter (λ x. equals_text f.source_system x.source_system) r2

-- The demo mode's answer.
unfoldable pub simulate_staging_list : StagingListFilter → StagingListResult
simulate_staging_list f =
    let (rows, pagination) =
      paginate (matching_staging_records f simulated_staging) (page_window (paging f)) in
    listed rows pagination

unfoldable pub list_staging_records :
    Env → StagingListFilter → (Request → Reply StagingRecord) → StagingListResult
list_staging_records env f fetch =
    run_list env (simulate_staging_list f) (build_staging_records_path f) (paging f) fixed_error
      fetch

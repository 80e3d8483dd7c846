-- ===== src/Api/Journal.antt =====
-- apps/web/src/api.ts: journal lines and entries, their filter, path, demo rows and list function.
pub mod Listing
pub mod Posting
pub mod Draft
use opentreasury.Prelude.{
  ℕ, ◌≡◌, refl, Bool, true, false, not, ◌&&◌, List, [], ◌∷◌, Option, none, some, if◌then◌else◌,
  filter, take, or_else, ◌++◌,
}
use opentreasury.Prelude.Text.{Text, codes, same, starts_with}
use opentreasury.Prelude.Int.{negsuc}
use opentreasury.Platform.Number.{Number, is_truthy, of_ℕ, int}
use opentreasury.Platform.Decimal.{show}
use opentreasury.Platform.Query.{Query, set}
use opentreasury.Platform.Percent.{to_string}
use opentreasury.Api.Page.{Paging, page_window, paginate}
use opentreasury.Api.Params.{given, given_number, set_given, with_query}
use opentreasury.Api.Request.{
  Env, Request, Reply, ListResult, listed, run_list, fixed_error, message_error,
}
use opentreasury.Api.Filter.{
  equals_text, from_text, until_text, equals_number, from_number, until_number,
}

pub data Direction : Type 0 where
  debit credit : Direction

abbrev pub spell_direction : Direction → Text
spell_direction debit = codes "DEBIT"
spell_direction credit = codes "CREDIT"

pub data EntryStatus : Type 0 where
  posted reversed : EntryStatus

abbrev pub spell_entry_status : EntryStatus → Text
spell_entry_status posted = codes "POSTED"
spell_entry_status reversed = codes "REVERSED"

pub data EntryType : Type 0 where
  standard reversal : EntryType

abbrev pub spell_entry_type : EntryType → Text
spell_entry_type standard = codes "STANDARD"
spell_entry_type reversal = codes "REVERSAL"

pub record JournalLine : Type 0 where
  pub account_code : Text
  pub direction : Direction
  pub amount_minor : Number
  pub currency : Text

pub record JournalEntry : Type 0 where
  pub id : Text
  pub institution_id : Text
  pub fiscal_year : Number
  pub effective_date : Text
  pub description : Text
  pub status : EntryStatus
  pub entry_type : EntryType
  pub reverses_entry_id : Option Text
  pub lines : List JournalLine

pub record JournalEntryListFilter : Type 0 where
  pub institution_id : Option Text
  pub fiscal_year : Option Number
  pub status : Option Text
  pub date_from : Option Text
  pub date_to : Option Text
  pub page : Option Number
  pub page_size : Option Number

abbrev pub JournalEntryListResult : Type 0
JournalEntryListResult = ListResult JournalEntry

abbrev pub paging : JournalEntryListFilter → Paging
paging f = record { page = f.page; page_size = f.page_size; limit = none }

-- The parameters of `buildJournalEntriesPath`.
unfoldable pub journal_entries_query : JournalEntryListFilter → Query
journal_entries_query f =
    let q1 = set_given (codes "institutionId") (given f.institution_id) [] in
    let q2 = set_given (codes "fiscalYear") (given_number f.fiscal_year) q1 in
    let q3 = set_given (codes "status") (given f.status) q2 in
    let q4 = set_given (codes "dateFrom") (given f.date_from) q3 in
    let q5 = set_given (codes "dateTo") (given f.date_to) q4 in
    let q6 = set_given (codes "page") (given_number f.page) q5 in
    set_given (codes "pageSize") (given_number f.page_size) q6

unfoldable pub build_journal_entries_path : JournalEntryListFilter → Text
unfolding journal_entries_query
build_journal_entries_path f = with_query (codes "/v1/journal-entries") (journal_entries_query f)

abbrev pub simulated_entries : List JournalEntry
simulated_entries =
    record {
      id = codes "je-2026-0001";
      institution_id = codes "minfin";
      fiscal_year = of_ℕ 2026;
      effective_date = codes "2026-06-28";
      description = codes "Tax receipt into the treasury account";
      status = posted;
      entry_type = standard;
      reverses_entry_id = none;
      lines =
          (record {
            account_code = codes "6202";
            direction = debit;
            amount_minor = of_ℕ 125000;
            currency = codes "USD";
          }
            ∷ record {
              account_code = codes "114";
              direction = credit;
              amount_minor = of_ℕ 125000;
              currency = codes "USD";
            }
            ∷ []);
    }
    ∷ record {
      id = codes "je-2026-0002";
      institution_id = codes "minfin";
      fiscal_year = of_ℕ 2026;
      effective_date = codes "2026-06-29";
      description = codes "Office supplies purchase";
      status = posted;
      entry_type = standard;
      reverses_entry_id = none;
      lines =
          (record {
            account_code = codes "22";
            direction = debit;
            amount_minor = of_ℕ 4000;
            currency = codes "USD";
          }
            ∷ record {
              account_code = codes "6202";
              direction = credit;
              amount_minor = of_ℕ 4000;
              currency = codes "USD";
            }
            ∷ []);
    }
    ∷ []

-- The chain of filters of the demo mode.
unfoldable pub matching_journal_entries :
    JournalEntryListFilter → List JournalEntry → List JournalEntry
matching_journal_entries f rows =
    let r1 = filter (λ x. equals_text f.institution_id x.institution_id) rows in
    let r2 = filter (λ x. equals_number f.fiscal_year x.fiscal_year) r1 in
    let r3 = filter (λ x. equals_text f.status (spell_entry_status x.status)) r2 in
    let r4 = filter (λ x. from_text f.date_from x.effective_date) r3 in
    filter (λ x. until_text f.date_to x.effective_date) r4

-- The demo mode's answer.
unfoldable pub simulate_journal_entry_list : JournalEntryListFilter → JournalEntryListResult
simulate_journal_entry_list f =
    let (rows, pagination) =
      paginate (matching_journal_entries f simulated_entries) (page_window (paging f)) in
    listed rows pagination

unfoldable pub list_journal_entries :
    Env → JournalEntryListFilter → (Request → Reply JournalEntry) → JournalEntryListResult
list_journal_entries env f fetch =
    run_list env (simulate_journal_entry_list f) (build_journal_entries_path f) (paging f)
      fixed_error fetch

-- ===== src/Api/Journal/Listing.antt =====
-- The rows that the demo mode lists, and the request that a server receives.
use mathlib.Core.List.{Memᴰ}
use opentreasury.Prelude.{◌≡◌, ◌↔◌, refl, List, [], ◌∷◌, Option, true, arith}
use opentreasury.Prelude.Text.{Text, codes, same, le_text}
use opentreasury.Platform.Number.{int}
use opentreasury.Platform.Percent.Parse.{AllUnits}
use opentreasury.Api.Params.{given, given_number}
use opentreasury.Api.Params.Laws.{present, read_path, read_path-set_all, utf8_pairs}
use opentreasury.Api.Filter.Laws.{
  Wanted, WantedNumber, equals_text_iff, equals_number_iff, from_text_iff, until_text_iff,
  mem_of_mem_filter, mem_filter_of_mem,
}
use opentreasury.Api.Journal.{
  JournalEntry, JournalEntryListFilter, spell_entry_status, build_journal_entries_path,
  matching_journal_entries,
}

-- What the filter asks of a row.
pub record Fits (f : JournalEntryListFilter) (x : JournalEntry) : Type 0 where
  pub institution : Wanted f.institution_id (λ v. x.institution_id ≡ v)
  pub year : WantedNumber f.fiscal_year (λ v. x.fiscal_year ≡ int v)
  pub status : Wanted f.status (λ v. (spell_entry_status x.status) ≡ v)
  pub since : Wanted f.date_from (λ v. le_text v x.effective_date ≡ true)
  pub until : Wanted f.date_to (λ v. le_text x.effective_date v ≡ true)

-- The demo mode keeps a row exactly where it is one of the rows and fits each filter that is given;
-- an empty text, zero and NaN count as not given.
pub mem-matching_journal_entries :
    (f : JournalEntryListFilter) (rows : List JournalEntry) (x : JournalEntry)
    → Memᴰ x (matching_journal_entries f rows) ↔ (Memᴰ x rows × Fits f x)
unfolding matching_journal_entries
mem-matching_journal_entries f rows x = (
  λ m.
      let (m4, h4) = mem_of_mem_filter _ _ m in
      let (m3, h3) = mem_of_mem_filter _ _ m4 in
      let (m2, h2) = mem_of_mem_filter _ _ m3 in
      let (m1, h1) = mem_of_mem_filter _ _ m2 in
      let (m0, h0) = mem_of_mem_filter _ _ m1 in
      (
        m0,
        record {
          institution = (equals_text_iff _ _).0 h0;
          year = (equals_number_iff _ _).0 h1;
          status = (equals_text_iff _ _).0 h2;
          since = (from_text_iff _ _).0 h3;
          until = (until_text_iff _ _).0 h4;
        },
      ),
  λ (m, fits).
      let m1 = mem_filter_of_mem _ _ m ((equals_text_iff f.institution_id _).1 fits.institution) in
      let m2 = mem_filter_of_mem _ _ m1 ((equals_number_iff f.fiscal_year _).1 fits.year) in
      let m3 = mem_filter_of_mem _ _ m2 ((equals_text_iff f.status _).1 fits.status) in
      let m4 = mem_filter_of_mem _ _ m3 ((from_text_iff f.date_from _).1 fits.since) in
      mem_filter_of_mem _ _ m4 ((until_text_iff f.date_to _).1 fits.until),
)

-- The parameters that the path carries.
abbrev pub journal_entry_params : JournalEntryListFilter → List (Text × Option Text)
journal_entry_params f =
    (codes "institutionId", given f.institution_id)
    ∷ (codes "fiscalYear", given_number f.fiscal_year)
    ∷ (codes "status", given f.status)
    ∷ (codes "dateFrom", given f.date_from)
    ∷ (codes "dateTo", given f.date_to)
    ∷ (codes "page", given_number f.page)
    ∷ (codes "pageSize", given_number f.page_size)
    ∷ []

-- A server that splits the path at `?` and decodes the query reads the path of the endpoint and
-- exactly the filters that are given, in order.
pub read_path-build_journal_entries_path :
    (f : JournalEntryListFilter)
    → AllUnits (present (journal_entry_params f))
    → read_path (build_journal_entries_path f)
      ≡ (codes "/v1/journal-entries", utf8_pairs (present (journal_entry_params f)))
unfolding build_journal_entries_path same
read_path-build_journal_entries_path f h =
    read_path-set_all (codes "/v1/journal-entries") (journal_entry_params f) refl (omega arith) h

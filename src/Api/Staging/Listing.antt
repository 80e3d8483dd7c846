-- ===== src/Api/Staging/Listing.antt =====
-- The rows that the demo mode lists, and the request that a server receives.
use mathlib.Core.List.{Memᴰ}
use opentreasury.Prelude.{◌≡◌, ◌↔◌, refl, List, [], ◌∷◌, Option, arith}
use opentreasury.Prelude.Text.{Text, codes, same}
use opentreasury.Platform.Percent.Parse.{AllUnits}
use opentreasury.Api.Params.{given, given_number}
use opentreasury.Api.Params.Laws.{present, read_path, read_path-set_all, utf8_pairs}
use opentreasury.Api.Filter.Laws.{Wanted, equals_text_iff, mem_of_mem_filter, mem_filter_of_mem}
use opentreasury.Api.Staging.{
  StagingRecord, StagingListFilter, spell_staging_status, build_staging_records_path,
  matching_staging_records,
}

-- What the filter asks of a row.
pub record Fits (f : StagingListFilter) (x : StagingRecord) : Type 0 where
  pub status : Wanted f.status (λ v. (spell_staging_status x.status) ≡ v)
  pub institution : Wanted f.institution_id (λ v. x.institution_id ≡ v)
  pub source : Wanted f.source_system (λ v. x.source_system ≡ v)

-- The demo mode keeps a row exactly where it is one of the rows and fits each filter that is given;
-- an empty text, zero and NaN count as not given.
pub mem-matching_staging_records :
    (f : StagingListFilter) (rows : List StagingRecord) (x : StagingRecord)
    → Memᴰ x (matching_staging_records f rows) ↔ (Memᴰ x rows × Fits f x)
unfolding matching_staging_records
mem-matching_staging_records f rows x = (
  λ m.
      let (m2, h2) = mem_of_mem_filter _ _ m in
      let (m1, h1) = mem_of_mem_filter _ _ m2 in
      let (m0, h0) = mem_of_mem_filter _ _ m1 in
      (
        m0,
        record {
          status = (equals_text_iff _ _).0 h0;
          institution = (equals_text_iff _ _).0 h1;
          source = (equals_text_iff _ _).0 h2;
        },
      ),
  λ (m, fits).
      let m1 = mem_filter_of_mem _ _ m ((equals_text_iff f.status _).1 fits.status) in
      let m2 = mem_filter_of_mem _ _ m1 ((equals_text_iff f.institution_id _).1 fits.institution) in
      mem_filter_of_mem _ _ m2 ((equals_text_iff f.source_system _).1 fits.source),
)

-- The parameters that the path carries.
abbrev pub staging_params : StagingListFilter → List (Text × Option Text)
staging_params f =
    (codes "status", given f.status)
    ∷ (codes "institutionId", given f.institution_id)
    ∷ (codes "sourceSystem", given f.source_system)
    ∷ (codes "page", given_number f.page)
    ∷ (codes "pageSize", given_number f.page_size)
    ∷ []

-- A server that splits the path at `?` and decodes the query reads the path of the endpoint and
-- exactly the filters that are given, in order.
pub read_path-build_staging_records_path :
    (f : StagingListFilter)
    → AllUnits (present (staging_params f))
    → read_path (build_staging_records_path f)
      ≡ (codes "/v1/staging-records", utf8_pairs (present (staging_params f)))
unfolding build_staging_records_path same
read_path-build_staging_records_path f h =
    read_path-set_all (codes "/v1/staging-records") (staging_params f) refl (omega arith) h

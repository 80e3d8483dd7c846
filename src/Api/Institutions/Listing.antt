-- ===== src/Api/Institutions/Listing.antt =====
-- The rows that the demo mode lists, and the request that a server receives.
use mathlib.Core.List.{Memᴰ}
use opentreasury.Prelude.{◌≡◌, ◌↔◌, refl, List, [], ◌∷◌, Option, arith}
use opentreasury.Prelude.Text.{Text, codes, same}
use opentreasury.Platform.Percent.Parse.{AllUnits}
use opentreasury.Api.Params.{given, given_number}
use opentreasury.Api.Params.Laws.{present, read_path, read_path-set_all, utf8_pairs}
use opentreasury.Api.Filter.Laws.{Wanted, equals_text_iff, mem_of_mem_filter, mem_filter_of_mem}
use opentreasury.Api.Institutions.{
  Institution, InstitutionListFilter, spell_institution_status, build_institutions_path,
  matching_institutions,
}

-- What the filter asks of a row.
pub record Fits (f : InstitutionListFilter) (x : Institution) : Type 0 where
  pub status : Wanted f.status (λ v. (spell_institution_status x.status) ≡ v)

-- The demo mode keeps a row exactly where it is one of the rows and fits each filter that is given;
-- an empty text, zero and NaN count as not given.
pub mem-matching_institutions :
    (f : InstitutionListFilter) (rows : List Institution) (x : Institution)
    → Memᴰ x (matching_institutions f rows) ↔ (Memᴰ x rows × Fits f x)
unfolding matching_institutions
mem-matching_institutions f rows x = (
  λ m.
      let (m0, h0) = mem_of_mem_filter _ _ m in
      (m0, record { status = (equals_text_iff _ _).0 h0 }),
  λ (m, fits). mem_filter_of_mem _ _ m ((equals_text_iff f.status _).1 fits.status),
)

-- The parameters that the path carries.
abbrev pub institution_params : InstitutionListFilter → List (Text × Option Text)
institution_params f =
    (codes "limit", given_number f.limit)
    ∷ (codes "status", given f.status)
    ∷ (codes "page", given_number f.page)
    ∷ (codes "pageSize", given_number f.page_size)
    ∷ []

-- A server that splits the path at `?` and decodes the query reads the path of the endpoint and
-- exactly the filters that are given, in order.
pub read_path-build_institutions_path :
    (f : InstitutionListFilter)
    → AllUnits (present (institution_params f))
    → read_path (build_institutions_path f)
      ≡ (codes "/v1/institutions", utf8_pairs (present (institution_params f)))
unfolding build_institutions_path same
read_path-build_institutions_path f h =
    read_path-set_all (codes "/v1/institutions") (institution_params f) refl (omega arith) h

-- ===== src/Api/Commitments/Listing.antt =====
-- The rows that the demo mode lists, and the request that a server receives.
use mathlib.Core.List.{Memᴰ}
use opentreasury.Prelude.{◌≡◌, ◌↔◌, refl, List, [], ◌∷◌, Option, some, arith, or_else}
use opentreasury.Prelude.Text.{Text, codes, same}
use opentreasury.Platform.Number.{int, of_ℕ}
use opentreasury.Platform.Decimal.{show}
use opentreasury.Platform.Percent.Parse.{AllUnits}
use opentreasury.Api.Params.{given, given_number}
use opentreasury.Api.Params.Laws.{present, read_path, read_path-append_query, utf8_pairs}
use opentreasury.Api.Filter.Laws.{
  Wanted, WantedNumber, equals_text_iff, equals_number_iff, mem_of_mem_filter, mem_filter_of_mem,
}
use opentreasury.Api.Commitments.{
  Commitment, CommitmentListFilter, spell_commitment_status, build_commitments_path,
  matching_commitments,
}

-- What the filter asks of a row.
pub record Fits (f : CommitmentListFilter) (x : Commitment) : Type 0 where
  pub institution : Wanted f.institution_id (λ v. x.institution_id ≡ v)
  pub year : WantedNumber f.fiscal_year (λ v. x.fiscal_year ≡ int v)
  pub status : Wanted f.status (λ v. (spell_commitment_status x.status) ≡ v)

-- The demo mode keeps a row exactly where it is one of the rows and fits each filter that is given;
-- an empty text, zero and NaN count as not given.
pub mem-matching_commitments :
    (f : CommitmentListFilter) (rows : List Commitment) (x : Commitment)
    → Memᴰ x (matching_commitments f rows) ↔ (Memᴰ x rows × Fits f x)
unfolding matching_commitments
mem-matching_commitments f rows x = (
  λ m.
      let (m2, h2) = mem_of_mem_filter _ _ m in
      let (m1, h1) = mem_of_mem_filter _ _ m2 in
      let (m0, h0) = mem_of_mem_filter _ _ m1 in
      (
        m0,
        record {
          institution = (equals_text_iff _ _).0 h0;
          year = (equals_number_iff _ _).0 h1;
          status = (equals_text_iff _ _).0 h2;
        },
      ),
  λ (m, fits).
      let m1 = mem_filter_of_mem _ _ m ((equals_text_iff f.institution_id _).1 fits.institution) in
      let m2 = mem_filter_of_mem _ _ m1 ((equals_number_iff f.fiscal_year _).1 fits.year) in
      mem_filter_of_mem _ _ m2 ((equals_text_iff f.status _).1 fits.status),
)

-- The parameters that the path carries.
abbrev pub commitment_params : CommitmentListFilter → List (Text × Option Text)
commitment_params f =
    (codes "institutionId", given f.institution_id)
    ∷ (codes "fiscalYear", given_number f.fiscal_year)
    ∷ (codes "status", given f.status)
    ∷ (codes "page", some (show (or_else f.page (of_ℕ 1))))
    ∷ (codes "pageSize", some (show (or_else f.page_size (of_ℕ 15))))
    ∷ []

-- A server that splits the path at `?` and decodes the query reads the path of the endpoint and
-- exactly the filters that are given, in order.
pub read_path-build_commitments_path :
    (f : CommitmentListFilter)
    → AllUnits (present (commitment_params f))
    → read_path (build_commitments_path f)
      ≡ (codes "/v1/commitments", utf8_pairs (present (commitment_params f)))
unfolding build_commitments_path same
read_path-build_commitments_path f h =
    read_path-append_query (codes "/v1/commitments") (commitment_params f) refl (omega arith) h

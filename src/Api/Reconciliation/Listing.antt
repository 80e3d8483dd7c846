-- ===== src/Api/Reconciliation/Listing.antt =====
-- The rows that the demo mode lists, and the request that a server receives.
use mathlib.Core.List.{Memᴰ}
use opentreasury.Prelude.{◌≡◌, ◌↔◌, refl, List, [], ◌∷◌, Option, some, true, arith, or_else}
use opentreasury.Prelude.Text.{Text, codes, same, starts_with}
use opentreasury.Platform.Number.{int, of_ℕ}
use opentreasury.Platform.Decimal.{show}
use opentreasury.Platform.Percent.Parse.{AllUnits}
use opentreasury.Api.Params.{given, given_number}
use opentreasury.Api.Params.Laws.{present, read_path, read_path-append_query, utf8_pairs}
use opentreasury.Api.Filter.Laws.{
  Wanted, WantedNumber, equals_text_iff, mem_of_mem_filter, mem_filter_of_mem,
  starts_with_number_iff,
}
use opentreasury.Api.Reconciliation.{
  ReconciliationRow, ReconciliationListFilter, build_reconciliation_path, matching_reconciliation,
}

-- What the filter asks of a row.
pub record Fits (f : ReconciliationListFilter) (x : ReconciliationRow) : Type 0 where
  pub source : Wanted f.source_system (λ v. x.source_system ≡ v)
  pub year : WantedNumber f.fiscal_year (λ v. starts_with x.period (show (int v)) ≡ true)

-- The demo mode keeps a row exactly where it is one of the rows and fits each filter that is given;
-- an empty text, zero and NaN count as not given.
pub mem-matching_reconciliation :
    (f : ReconciliationListFilter) (rows : List ReconciliationRow) (x : ReconciliationRow)
    → Memᴰ x (matching_reconciliation f rows) ↔ (Memᴰ x rows × Fits f x)
unfolding matching_reconciliation
mem-matching_reconciliation f rows x = (
  λ m.
      let (m1, h1) = mem_of_mem_filter _ _ m in
      let (m0, h0) = mem_of_mem_filter _ _ m1 in
      (
        m0,
        record { source = (equals_text_iff _ _).0 h0; year = (starts_with_number_iff _ _).0 h1 },
      ),
  λ (m, fits).
      let m1 = mem_filter_of_mem _ _ m ((equals_text_iff f.source_system _).1 fits.source) in
      mem_filter_of_mem _ _ m1 ((starts_with_number_iff f.fiscal_year _).1 fits.year),
)

-- The parameters that the path carries.
abbrev pub reconciliation_params : ReconciliationListFilter → List (Text × Option Text)
reconciliation_params f =
    (codes "sourceSystem", given f.source_system)
    ∷ (codes "fiscalYear", given_number f.fiscal_year)
    ∷ (codes "page", some (show (or_else f.page (of_ℕ 1))))
    ∷ (codes "pageSize", some (show (or_else f.page_size (of_ℕ 15))))
    ∷ []

-- A server that splits the path at `?` and decodes the query reads the path of the endpoint and
-- exactly the filters that are given, in order.
pub read_path-build_reconciliation_path :
    (f : ReconciliationListFilter)
    → AllUnits (present (reconciliation_params f))
    → read_path (build_reconciliation_path f)
      ≡ (codes "/v1/reconciliation", utf8_pairs (present (reconciliation_params f)))
unfolding build_reconciliation_path same
read_path-build_reconciliation_path f h =
    read_path-append_query (codes "/v1/reconciliation") (reconciliation_params f) refl (omega arith)
      h

-- ===== src/Api/Balances/Listing.antt =====
-- The rows that the demo mode lists, and the request that a server receives.
use mathlib.Core.List.{Memᴰ}
use opentreasury.Prelude.{◌≡◌, ◌↔◌, refl, List, [], ◌∷◌, Option, arith}
use opentreasury.Prelude.Text.{Text, codes, same}
use opentreasury.Platform.Percent.Parse.{AllUnits}
use opentreasury.Api.Params.{given, given_number}
use opentreasury.Api.Params.Laws.{present, read_path, read_path-set_all, utf8_pairs}
use opentreasury.Api.Filter.Laws.{Wanted, equals_text_iff, mem_of_mem_filter, mem_filter_of_mem}
use opentreasury.Api.Balances.{
  Balance, BalanceListFilter, Balance, build_balances_path, matching_balances,
}

-- What the filter asks of a row.
pub record Fits (f : BalanceListFilter) (x : Balance) : Type 0 where
  pub institution : Wanted f.institution_id (λ v. x.institution_id ≡ v)
  pub account : Wanted f.account_code (λ v. x.account_code ≡ v)

-- The demo mode keeps a row exactly where it is one of the rows and fits each filter that is given;
-- an empty text, zero and NaN count as not given.
pub mem-matching_balances :
    (f : BalanceListFilter) (rows : List Balance) (x : Balance)
    → Memᴰ x (matching_balances f rows) ↔ (Memᴰ x rows × Fits f x)
unfolding matching_balances
mem-matching_balances f rows x = (
  λ m.
      let (m1, h1) = mem_of_mem_filter _ _ m in
      let (m0, h0) = mem_of_mem_filter _ _ m1 in
      (
        m0,
        record { institution = (equals_text_iff _ _).0 h0; account = (equals_text_iff _ _).0 h1 },
      ),
  λ (m, fits).
      let m1 = mem_filter_of_mem _ _ m ((equals_text_iff f.institution_id _).1 fits.institution) in
      mem_filter_of_mem _ _ m1 ((equals_text_iff f.account_code _).1 fits.account),
)

-- The parameters that the path carries.
abbrev pub balance_params : BalanceListFilter → List (Text × Option Text)
balance_params f =
    (codes "institutionId", given f.institution_id)
    ∷ (codes "accountCode", given f.account_code)
    ∷ (codes "page", given_number f.page)
    ∷ (codes "pageSize", given_number f.page_size)
    ∷ []

-- A server that splits the path at `?` and decodes the query reads the path of the endpoint and
-- exactly the filters that are given, in order.
pub read_path-build_balances_path :
    (f : BalanceListFilter)
    → AllUnits (present (balance_params f))
    → read_path (build_balances_path f)
      ≡ (codes "/v1/balances", utf8_pairs (present (balance_params f)))
unfolding build_balances_path same
read_path-build_balances_path f h =
    read_path-set_all (codes "/v1/balances") (balance_params f) refl (omega arith) h

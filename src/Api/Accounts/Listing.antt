-- ===== src/Api/Accounts/Listing.antt =====
-- The rows that the demo mode lists, and the request that a server receives.
use mathlib.Core.List.{Memᴰ}
use opentreasury.Prelude.{◌≡◌, ◌↔◌, refl, List, [], ◌∷◌, Option, arith}
use opentreasury.Prelude.Text.{Text, codes, same}
use opentreasury.Platform.Percent.Parse.{AllUnits}
use opentreasury.Api.Params.{given, given_number}
use opentreasury.Api.Params.Laws.{present, read_path, read_path-set_all, utf8_pairs}
use opentreasury.Api.Filter.Laws.{Wanted, equals_text_iff, mem_of_mem_filter, mem_filter_of_mem}
use opentreasury.Api.Accounts.{
  Account, AccountListFilter, spell_account_type, build_accounts_path, matching_accounts,
}

-- What the filter asks of a row.
pub record Fits (f : AccountListFilter) (x : Account) : Type 0 where
  pub kind : Wanted f.account_type (λ v. (spell_account_type x.account_type) ≡ v)

-- The demo mode keeps a row exactly where it is one of the rows and fits each filter that is given;
-- an empty text, zero and NaN count as not given.
pub mem-matching_accounts :
    (f : AccountListFilter) (rows : List Account) (x : Account)
    → Memᴰ x (matching_accounts f rows) ↔ (Memᴰ x rows × Fits f x)
unfolding matching_accounts
mem-matching_accounts f rows x = (
  λ m. let (m0, h0) = mem_of_mem_filter _ _ m in (m0, record { kind = (equals_text_iff _ _).0 h0 }),
  λ (m, fits). mem_filter_of_mem _ _ m ((equals_text_iff f.account_type _).1 fits.kind),
)

-- The parameters that the path carries.
abbrev pub account_params : AccountListFilter → List (Text × Option Text)
account_params f =
    (codes "accountType", given f.account_type)
    ∷ (codes "page", given_number f.page)
    ∷ (codes "pageSize", given_number f.page_size)
    ∷ []

-- A server that splits the path at `?` and decodes the query reads the path of the endpoint and
-- exactly the filters that are given, in order.
pub read_path-build_accounts_path :
    (f : AccountListFilter)
    → AllUnits (present (account_params f))
    → read_path (build_accounts_path f)
      ≡ (codes "/v1/accounts", utf8_pairs (present (account_params f)))
unfolding build_accounts_path same
read_path-build_accounts_path f h =
    read_path-set_all (codes "/v1/accounts") (account_params f) refl (omega arith) h

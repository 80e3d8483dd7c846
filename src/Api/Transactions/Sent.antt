-- ===== src/Api/Transactions/Sent.antt =====
-- The request of `listTransactions` as a server receives it.
use mathlib.Core.Path.{subst}
use opentreasury.Prelude.{◌≡◌, refl, sym, List, [], ◌∷◌, Option, none, some, arith}
use opentreasury.Prelude.Text.{Text, codes, same}
use opentreasury.Platform.Number.{Number}
use opentreasury.Platform.Percent.Parse.{AllUnits}
use opentreasury.Api.Params.{given, given_number}
use opentreasury.Api.Params.Laws.{present, read_path, read_path-set_all, utf8_pairs}
use opentreasury.Api.Transactions.{
  TransactionListFilter, build_transactions_path, limit_without_page_size,
}
use opentreasury.Api.Transactions.Proper.{
  IsNonzero, IsProper, printed, given-IsFilled, given_number-IsNonzero,
}

-- The parameters that the path carries, as the source tests them.
abbrev transaction_params : TransactionListFilter → List (Text × Option Text)
transaction_params f =
    (codes "institutionId", given f.institution_id)
    ∷ (codes "fiscalYear", given_number f.fiscal_year)
    ∷ (codes "status", given f.status)
    ∷ (codes "dateFrom", given f.date_from)
    ∷ (codes "dateTo", given f.date_to)
    ∷ (codes "amountGte", given_number f.amount_gte)
    ∷ (codes "amountLte", given_number f.amount_lte)
    ∷ (codes "page", given_number f.page)
    ∷ (codes "pageSize", given_number f.page_size)
    ∷ (codes "limit", limit_without_page_size f.limit f.page_size)
    ∷ []

-- The limit, which stands only where no page size is given.
abbrev pub limit_alone : Option Number → Option Number → Option Text
limit_alone none limit = printed limit
limit_alone (some size) limit = none

-- The fields of a filter by their names.
abbrev pub fields : TransactionListFilter → List (Text × Option Text)
fields f =
    (codes "institutionId", f.institution_id)
    ∷ (codes "fiscalYear", printed f.fiscal_year)
    ∷ (codes "status", f.status)
    ∷ (codes "dateFrom", f.date_from)
    ∷ (codes "dateTo", f.date_to)
    ∷ (codes "amountGte", printed f.amount_gte)
    ∷ (codes "amountLte", printed f.amount_lte)
    ∷ (codes "page", printed f.page)
    ∷ (codes "pageSize", printed f.page_size)
    ∷ (codes "limit", limit_alone f.page_size f.limit)
    ∷ []

limit_without_page_size-IsNonzero :
    (size limit : Option Number)
    → IsNonzero size
    → IsNonzero limit
    → limit_without_page_size limit size ≡ limit_alone size limit
limit_without_page_size-IsNonzero none limit h k = given_number-IsNonzero limit k
limit_without_page_size-IsNonzero (some size) limit h k =
    let set = given_number-IsNonzero (some size) h in ground arith

transaction_params-fields :
    (f : TransactionListFilter) → IsProper f → transaction_params f ≡ fields f
transaction_params-fields f h = rw (
  given-IsFilled f.institution_id h.institution,
  given_number-IsNonzero f.fiscal_year h.year,
  given-IsFilled f.status h.status,
  given-IsFilled f.date_from h.since,
  given-IsFilled f.date_to h.until,
  given_number-IsNonzero f.amount_gte h.above,
  given_number-IsNonzero f.amount_lte h.below,
  given_number-IsNonzero f.page h.page,
  given_number-IsNonzero f.page_size h.size,
  limit_without_page_size-IsNonzero f.page_size f.limit h.size h.limit,
)

read_path-params :
    (f : TransactionListFilter)
    → AllUnits (present (transaction_params f))
    → read_path (build_transactions_path f)
      ≡ (codes "/v1/transactions", utf8_pairs (present (transaction_params f)))
unfolding build_transactions_path same
read_path-params f units =
    read_path-set_all (codes "/v1/transactions") (transaction_params f) refl (omega arith) units

-- For a filter whose texts are not empty and whose numbers are neither zero nor NaN: a server that
-- splits the path at `?` and decodes the query reads the path of the endpoint and each field that is given,
-- by its name and in order; the limit stands only where no page size is given.
pub read_path-build_transactions_path :
    (f : TransactionListFilter)
    → IsProper f
    → AllUnits (present (fields f))
    → read_path (build_transactions_path f)
      ≡ (codes "/v1/transactions", utf8_pairs (present (fields f)))
read_path-build_transactions_path f proper units =
    let params = transaction_params-fields f proper in
    subst
      (λ ps.
        read_path (build_transactions_path f) ≡ (codes "/v1/transactions", utf8_pairs (present ps)))
      params (read_path-params f (subst (λ ps. AllUnits (present ps)) (sym params) units))

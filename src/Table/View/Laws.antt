-- ===== src/Table/View/Laws.antt =====
-- The footer's buttons, and what a failed request shows.
use opentreasury.Prelude.{
  ℕ, zero, suc, ◌+◌, ◌-◌, ◌≤◌, ◌<◌, ◌≡◌, refl, ap, ◌∙◌, false, List, [], Option, some, arith,
  or_else,
}
use opentreasury.Prelude.Int.{ℤ, pos}
use opentreasury.Prelude.Text.{Text}
use opentreasury.Platform.Number.{int}
use opentreasury.Platform.Decimal.{show}
use opentreasury.Platform.Query.{Query}
use opentreasury.Api.Request.{failed}
use opentreasury.Table.Range.{page_count}
use opentreasury.Table.Url.{positive, page_of, page_size_of}
use opentreasury.Table.Url.Laws.{set_page_lem}
use opentreasury.Table.View.{
  Column, DataTableProps, Fetched, data_table, table_body, table_props, empty_state, on_next,
  on_previous,
}

-- Where a printed integer reads back: if the next button of a table is enabled, it leads to the
-- page after the shown one, which is one of the pages of the table, and keeps the page size.
pub on_next_lem {ℓ} :
    {A : Type ℓ} (integer_of : Text → Option ℤ)
    → ((z : ℤ) → integer_of (show (int z)) ≡ some z)
    → (props : DataTableProps A) (q : Query) → (data_table props).next_disabled ≡ false
    → (page_of integer_of (on_next props.page q) ≡ props.page + 1)
      × (props.page + 1 ≤ page_count props.total props.page_size)
      × (page_size_of integer_of (on_next props.page q) ≡ page_size_of integer_of q)
unfolding data_table on_next
on_next_lem integer_of reads props q enabled =
    let (here, size, kept) = set_page_lem integer_of reads (pos (props.page + 1)) [] q in
    (here ∙ after props.page, ground (arith, enabled), size)
  where
    after : (n : ℕ) → or_else (positive (some (pos (n + 1)))) 1 ≡ n + 1
    after n = let e : n + 1 ≡ suc n = omega arith in rw e refl

-- Where a printed integer reads back: if the previous button is enabled, it leads to the page
-- before the shown one.
pub on_previous_lem {ℓ} :
    {A : Type ℓ} (integer_of : Text → Option ℤ)
    → ((z : ℤ) → integer_of (show (int z)) ≡ some z)
    → (props : DataTableProps A) (q : Query) → (data_table props).previous_disabled ≡ false
    → page_of integer_of (on_previous props.page q) + 1 ≡ props.page
unfolding data_table on_previous
on_previous_lem integer_of reads props q enabled =
    let (here, size, kept) = set_page_lem integer_of reads (pos (props.page - 1)) [] q in
    let many : 1 < props.page = ground (arith, enabled) in
    ap (λ k. k + 1) (here ∙ before (props.page - 1) (omega arith)) ∙ omega arith
  where
    before : (n : ℕ) → 0 < n → or_else (positive (some (pos n))) 1 ≡ n
    before zero h = absurd (omega arith)
    before (suc n) h = refl

-- A request that failed shows its error in the place of the rows, once it is no longer pending.
pub table_body-failed {ℓ} :
    {A : Type ℓ} (columns : List (Column A)) (fetched : Fetched A) (page page_size : ℕ)
    (empty_message reason : Text)
    → fetched.result ≡ some (failed reason)
    → fetched.is_pending ≡ false
    → table_body (table_props columns fetched page page_size empty_message) ≡ empty_state reason
unfolding table_body table_props
table_body-failed columns fetched page page_size empty_message reason e p = rw (e, p) refl

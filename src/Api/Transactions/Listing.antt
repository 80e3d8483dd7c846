-- ===== src/Api/Transactions/Listing.antt =====
-- The rows that the demo mode lists for a filter, page by page.
use mathlib.Core.List.{Memᴰ}
use mathlib.Core.List.Memᴰ
use mathlib.Core.Path.{subst}
use opentreasury.Prelude.{
  ℕ, zero, suc, ◌*◌, ◌≤◌, ◌≡◌, ◌↔◌, inl, inr, sym, List, [], some, true, arith, length, take, drop,
  take-append-drop,
}
use opentreasury.Prelude.Text.{le_text}
use opentreasury.Platform.Number.{int, of_ℕ}
use opentreasury.Api.Request.{Env, Request, Reply, is_demo, listed, failed, run_list}
use opentreasury.Api.Page.{page_window, page_or_first, paginate}
use opentreasury.Api.Page.Laws.{first_pages, first_pages-take, pages-paginate, window_at}
use opentreasury.Api.Filter.Laws.{
  Wanted, WantedNumber, AtLeast, AtMost, equals_text_iff, equals_number_iff, from_text_iff,
  until_text_iff, from_number_iff, until_number_iff, mem_of_mem_filter, mem_filter_of_mem,
}
use opentreasury.Api.Transactions.{
  TreasuryTransaction, TransactionListFilter, TransactionListResult, spell_status,
  matching_transactions, simulated_transactions, simulate_transaction_list, list_transactions,
}
use opentreasury.Api.Transactions.Proper.{IsProper, Asks, OnInt, Wanted-Asks, WantedNumber-Asks}

mul_le : (a p : ℕ) → 1 ≤ p → a ≤ a * p
mul_le zero p h = omega arith
mul_le (suc a) p h = omega (arith, mul_le a p h)

-- What the tests of the source ask of a transaction, which take a text or a number that counts as
-- false for one that is not given.
record Passes (f : TransactionListFilter) (t : TreasuryTransaction) : Type 0 where
  pub institution : Wanted f.institution_id (λ x. t.institution_id ≡ x)
  pub year : WantedNumber f.fiscal_year (λ x. t.fiscal_year ≡ int x)
  pub status : Wanted f.status (λ x. spell_status t.status ≡ x)
  pub since : Wanted f.date_from (λ x. le_text x t.transaction_date ≡ true)
  pub until : Wanted f.date_to (λ x. le_text t.transaction_date x ≡ true)
  pub above : WantedNumber f.amount_gte (AtLeast t.amount_minor)
  pub below : WantedNumber f.amount_lte (AtMost t.amount_minor)

-- The same filter for page `n + 1` of some size.
abbrev pub page_of : TransactionListFilter → ℕ → ℕ → TransactionListFilter
page_of f n size = record f { page = some (of_ℕ (suc n)); page_size = some (of_ℕ size) }

-- The chain of filters keeps a row exactly where it passes the tests of the source.
mem-matching_transactions :
    (f : TransactionListFilter) (rows : List TreasuryTransaction) (t : TreasuryTransaction)
    → Memᴰ t (matching_transactions f rows) ↔ (Memᴰ t rows × Passes f t)
unfolding matching_transactions
mem-matching_transactions f rows t = (
  λ m.
      let (m6, h6) = mem_of_mem_filter _ _ m in
      let (m5, h5) = mem_of_mem_filter _ _ m6 in
      let (m4, h4) = mem_of_mem_filter _ _ m5 in
      let (m3, h3) = mem_of_mem_filter _ _ m4 in
      let (m2, h2) = mem_of_mem_filter _ _ m3 in
      let (m1, h1) = mem_of_mem_filter _ _ m2 in
      let (m0, h0) = mem_of_mem_filter _ _ m1 in
      (
        m0,
        record {
          institution = (equals_text_iff _ _).0 h0;
          year = (equals_number_iff _ _).0 h1;
          status = (equals_text_iff _ _).0 h2;
          since = (from_text_iff _ _).0 h3;
          until = (until_text_iff _ _).0 h4;
          above = (from_number_iff _ _).0 h5;
          below = (until_number_iff _ _).0 h6;
        },
      ),
  λ (m, fits).
      let m1 = mem_filter_of_mem _ _ m ((equals_text_iff f.institution_id _).1 fits.institution) in
      let m2 = mem_filter_of_mem _ _ m1 ((equals_number_iff f.fiscal_year _).1 fits.year) in
      let m3 = mem_filter_of_mem _ _ m2 ((equals_text_iff f.status _).1 fits.status) in
      let m4 = mem_filter_of_mem _ _ m3 ((from_text_iff f.date_from _).1 fits.since) in
      let m5 = mem_filter_of_mem _ _ m4 ((until_text_iff f.date_to _).1 fits.until) in
      let m6 = mem_filter_of_mem _ _ m5 ((from_number_iff f.amount_gte _).1 fits.above) in
      mem_filter_of_mem _ _ m6 ((until_number_iff f.amount_lte _).1 fits.below),
)

-- What a filter asks of a transaction, by its fields that are given: the same institution, year and
-- status, a date between the two, the bounds included, and an amount between the two.
pub record Fits (f : TransactionListFilter) (t : TreasuryTransaction) : Type 0 where
  pub institution : Asks f.institution_id (λ x. t.institution_id ≡ x)
  pub year : Asks f.fiscal_year (OnInt (λ x. t.fiscal_year ≡ int x))
  pub status : Asks f.status (λ x. spell_status t.status ≡ x)
  pub since : Asks f.date_from (λ x. le_text x t.transaction_date ≡ true)
  pub until : Asks f.date_to (λ x. le_text t.transaction_date x ≡ true)
  pub above : Asks f.amount_gte (OnInt (AtLeast t.amount_minor))
  pub below : Asks f.amount_lte (OnInt (AtMost t.amount_minor))

Passes-Fits :
    (f : TransactionListFilter) (t : TreasuryTransaction) → IsProper f → Passes f t ↔ Fits f t
Passes-Fits f t h = (
  λ p. record {
    institution = (Wanted-Asks f.institution_id _ h.institution).0 p.institution;
    year = (WantedNumber-Asks f.fiscal_year _ h.year).0 p.year;
    status = (Wanted-Asks f.status _ h.status).0 p.status;
    since = (Wanted-Asks f.date_from _ h.since).0 p.since;
    until = (Wanted-Asks f.date_to _ h.until).0 p.until;
    above = (WantedNumber-Asks f.amount_gte _ h.above).0 p.above;
    below = (WantedNumber-Asks f.amount_lte _ h.below).0 p.below;
  },
  λ p. record {
    institution = (Wanted-Asks f.institution_id _ h.institution).1 p.institution;
    year = (WantedNumber-Asks f.fiscal_year _ h.year).1 p.year;
    status = (Wanted-Asks f.status _ h.status).1 p.status;
    since = (Wanted-Asks f.date_from _ h.since).1 p.since;
    until = (Wanted-Asks f.date_to _ h.until).1 p.until;
    above = (WantedNumber-Asks f.amount_gte _ h.above).1 p.above;
    below = (WantedNumber-Asks f.amount_lte _ h.below).1 p.below;
  },
)

module _ {ℓ} {A : Type ℓ} {x : A} where
  mem_of_mem_take : (n : ℕ) (xs : List A) → Memᴰ x (take n xs) → Memᴰ x xs
  mem_of_mem_take n xs m = subst (Memᴰ x) (take-append-drop n xs) (Memᴰ.append_left (drop n xs) m)

  -- What stands on one of the first pages stands on one page.
  mem_of_first_pages :
      (rows : List A) (p n : ℕ)
      → Memᴰ x (first_pages rows p n)
      → (k : ℕ) × Memᴰ x (paginate rows (window_at k p)).0
  unfolding first_pages
  mem_of_first_pages rows p zero m = elim m [ ]
  mem_of_first_pages rows p (suc n) m = elim (Memᴰ.append_cases (first_pages rows p n) m) [
    | inl before ↦ mem_of_first_pages rows p n before
    | inr last ↦ (n, last)
  ]

  -- An item is in the rows exactly where it stands on some page.
  mem-paginate :
      (rows : List A) (p : ℕ)
      → 1 ≤ p
      → ((k : ℕ) × Memᴰ x (paginate rows (window_at k p)).0) ↔ Memᴰ x rows
  unfolding first_pages
  mem-paginate rows p h = (
    λ (k, m).
        let among : Memᴰ x (first_pages rows p (suc k)) =
          Memᴰ.append_right (first_pages rows p k) m in
        mem_of_mem_take (suc k * p) rows (subst (Memᴰ x) (first_pages-take rows p (suc k)) among),
    λ m.
        let enough : length rows ≤ length rows * p = mul_le (length rows) p h in
        mem_of_first_pages rows p (length rows)
          (subst (Memᴰ x) (sym (pages-paginate rows p (length rows) enough)) m),
  )

-- The rows of a result.
abbrev pub rows_of : TransactionListResult → List TreasuryTransaction
rows_of (listed rows pagination) = rows
rows_of (failed message) = []

rows_of-list_transactions :
    (env : Env) (fetch : Request → Reply TreasuryTransaction) (f : TransactionListFilter)
    (n size : ℕ)
    → is_demo env.api_base_url ≡ true
    → rows_of (list_transactions env (page_of f n size) fetch)
      ≡ (paginate (matching_transactions f simulated_transactions) (window_at n size)).0
unfolding list_transactions run_list simulate_transaction_list page_window page_or_first
    matching_transactions
rows_of-list_transactions env fetch f n size demo = ground arith

-- In demo mode, for a filter whose texts are not empty and whose numbers are neither zero nor NaN,
-- and for a page size of at least one: a transaction is listed on one of the filter's pages exactly where it
-- is one of the rows of the demo mode and fits each field of the filter that is given.
pub mem-list_transactions :
    (env : Env) (fetch : Request → Reply TreasuryTransaction) (f : TransactionListFilter) (size : ℕ)
    (t : TreasuryTransaction)
    → is_demo env.api_base_url ≡ true
    → 1 ≤ size
    → IsProper f
    → ((n : ℕ) × Memᴰ t (rows_of (list_transactions env (page_of f n size) fetch)))
      ↔ (Memᴰ t simulated_transactions × Fits f t)
mem-list_transactions env fetch f size t demo some_rows proper =
    let rows = matching_transactions f simulated_transactions in
    let page = λ (n : ℕ). rows_of-list_transactions env fetch f n size demo in
    let paged = mem-paginate {x = t} rows size some_rows in
    let kept = mem-matching_transactions f simulated_transactions t in
    let fits = Passes-Fits f t proper in
    (
      λ (n, m).
          let (known, passed) = kept.0 (paged.0 (n, subst (Memᴰ t) (page n) m)) in
          (known, fits.0 passed),
      λ (known, fitting).
          let (n, m) = paged.1 (kept.1 (known, fits.1 fitting)) in
          (n, subst (Memᴰ t) (sym (page n)) m),
    )

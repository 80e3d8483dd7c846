-- ===== src/Pages/Demo.antt =====
-- The transactions page in the demo mode, from its URL to its table.
use opentreasury.Prelude.{
  ℕ, zero, suc, ◌+◌, ◌*◌, ◌≤◌, ◌≡◌, refl, sym, ap, ◌∙◌, List, [], ◌++◌, none, some, arith, length,
  or_else, false,
}
use opentreasury.Prelude.Int.{ℤ, pos}
use opentreasury.Prelude.Text.{codes}
use opentreasury.Platform.Number.{int, of_ℕ}
use opentreasury.Platform.Decimal.{show}
use opentreasury.Platform.Query.{Query}
use opentreasury.Api.Page.{paginate}
use opentreasury.Api.Page.Laws.{
  window_at, first_pages, pages-paginate, rows-paginate, paginate-page_window,
}
use opentreasury.Api.Request.{Env, Request, Reply, run_list}
use opentreasury.Api.Transactions.{
  TreasuryTransaction, TransactionListFilter, paging, matching_transactions, simulated_transactions,
  simulate_transaction_list, list_transactions,
}
use opentreasury.Table.Url.{positive, page_of, page_size_of}
use opentreasury.Table.Url.Laws.{set_page_lem}
use opentreasury.Table.View.{Fetched, rows_of, on_next}
use opentreasury.Pages.{Host}
use opentreasury.Pages.Transactions.{api_filter}

-- The hook's answer once the demo mode has given it.
unfoldable pub answered :
    Env
    → (Request → Reply TreasuryTransaction)
    → TransactionListFilter
    → Fetched TreasuryTransaction
answered env fetch f = record { result = some (list_transactions env f fetch); is_pending = false }

-- The transactions of the demo mode that the filters of a URL leave.
unfoldable pub left : Host → Query → List TreasuryTransaction
left host q = matching_transactions (api_filter host q) simulated_transactions

-- The rows that the page shows for a URL.
unfoldable pub shown :
    Host → Env → (Request → Reply TreasuryTransaction) → Query → List TreasuryTransaction
unfolding answered
shown host env fetch q = rows_of (answered env fetch (api_filter host q)).result

-- The URL after presses of the next button, each on the page that is shown then.
unfoldable pub visited : Host → Query → ℕ → Query
visited host q zero = q
visited host q (suc presses) =
    let here = visited host q presses in on_next (page_of host.integer_of here) here

-- The rows that were shown before each of the presses, in order.
unfoldable pub walked :
    Host → Env → (Request → Reply TreasuryTransaction) → Query → ℕ → List TreasuryTransaction
unfolding visited shown
walked host env fetch q zero = []
walked host env fetch q (suc presses) =
    walked host env fetch q presses ++ shown host env fetch (visited host q presses)

shown-left :
    (host : Host) (env : Env) (fetch : Request → Reply TreasuryTransaction) (q : Query) (n : ℕ)
    → env.api_base_url ≡ none
    → page_of host.integer_of q ≡ suc n
    → shown host env fetch q
      ≡ (paginate (left host q) (window_at n (page_size_of host.integer_of q))).0
unfolding shown list_transactions run_list simulate_transaction_list left answered rows_of
shown-left host env fetch q n demo page =
    let f = api_filter host q in
    let size = page_size_of host.integer_of q in
    rw
      (
        demo,
        paginate-page_window (left host q) (paging f) n size
            (unfold api_filter in ap (λ k. some (of_ℕ k)) page) (unfold api_filter in refl),
      )
      (sym (rows-paginate (left host q) n size))

module _ (host : Host) (reads : (z : ℤ) → host.integer_of (show (int z)) ≡ some z) where
  page_after : (n : ℕ) → or_else (positive (some (pos (n + 1)))) 1 ≡ n + 1
  page_after n = let e : n + 1 ≡ suc n = omega arith in rw e refl

  page_of-on_next : (page : ℕ) (q : Query) → page_of host.integer_of (on_next page q) ≡ page + 1
  unfolding on_next
  page_of-on_next page q =
      (set_page_lem host.integer_of reads (pos (page + 1)) [] q).0 ∙ page_after page

  page_size_of-on_next :
      (page : ℕ) (q : Query)
      → page_size_of host.integer_of (on_next page q) ≡ page_size_of host.integer_of q
  unfolding on_next
  page_size_of-on_next page q = (set_page_lem host.integer_of reads (pos (page + 1)) [] q).1

  left-on_next : (page : ℕ) (q : Query) → left host (on_next page q) ≡ left host q
  unfolding left matching_transactions api_filter on_next
  left-on_next page q =
      rw
        (
          (set_page_lem host.integer_of reads (pos (page + 1)) (codes "institutionId") q).2,
          (set_page_lem host.integer_of reads (pos (page + 1)) (codes "fiscalYear") q).2,
          (set_page_lem host.integer_of reads (pos (page + 1)) (codes "status") q).2,
          (set_page_lem host.integer_of reads (pos (page + 1)) (codes "dateFrom") q).2,
          (set_page_lem host.integer_of reads (pos (page + 1)) (codes "dateTo") q).2,
          (set_page_lem host.integer_of reads (pos (page + 1)) (codes "amountGte") q).2,
          (set_page_lem host.integer_of reads (pos (page + 1)) (codes "amountLte") q).2,
        )
        refl

  page_of-visited :
      (q : Query) (n : ℕ)
      → page_of host.integer_of q ≡ 1
      → page_of host.integer_of (visited host q n) ≡ suc n
  unfolding visited
  page_of-visited q zero h = h
  page_of-visited q (suc n) h =
      page_of-on_next (page_of host.integer_of (visited host q n)) (visited host q n)
      ∙ omega (arith, page_of-visited q n h)

  page_size_of-visited :
      (q : Query) (n : ℕ)
      → page_size_of host.integer_of (visited host q n) ≡ page_size_of host.integer_of q
  unfolding visited
  page_size_of-visited q zero = refl
  page_size_of-visited q (suc n) =
      page_size_of-on_next (page_of host.integer_of (visited host q n)) (visited host q n)
      ∙ page_size_of-visited q n

  left-visited : (q : Query) (n : ℕ) → left host (visited host q n) ≡ left host q
  unfolding visited
  left-visited q zero = refl
  left-visited q (suc n) =
      left-on_next (page_of host.integer_of (visited host q n)) (visited host q n)
      ∙ left-visited q n

  module _ (env : Env) (demo : env.api_base_url ≡ none)
      (fetch : Request → Reply TreasuryTransaction) where
    walked-first_pages :
        (q : Query) (n : ℕ)
        → page_of host.integer_of q ≡ 1
        → walked host env fetch q n ≡ first_pages (left host q) (page_size_of host.integer_of q) n
    unfolding walked first_pages
    walked-first_pages q zero h = refl
    walked-first_pages q (suc n) h =
        rw
          (
            walked-first_pages q n h,
            shown-left host env fetch (visited host q n) n demo (page_of-visited q n h),
            left-visited q n,
            page_size_of-visited q n,
          )
          refl

    -- In the demo mode, where a printed integer reads back: from the first page on, with as many
    -- presses of the next button as it takes for pages of that size to hold them, the rows that
    -- the page shows are, page after page, exactly the transactions that the filters of the URL
    -- leave, in order.
    pub walked-left :
        (q : Query) (n : ℕ)
        → page_of host.integer_of q ≡ 1
        → length (left host q) ≤ n * page_size_of host.integer_of q
        → walked host env fetch q n ≡ left host q
    walked-left q n h enough =
        walked-first_pages q n h
        ∙ pages-paginate (left host q) (page_size_of host.integer_of q) n enough

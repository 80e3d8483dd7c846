-- ===== src/Api/Page/Laws.antt =====
-- What a page holds, and that the pages of a list are the list.
use opentreasury.Prelude.{
  ℕ, ◌+◌, ◌*◌, ◌-◌, ◌≤◌, ◌≡◌, refl, sym, ap, ◌∙◌, List, [], ◌++◌, Option, none, some, arith, length,
  take, drop, length-take, length-drop, take_all, take-add, min, ◌≡⟨◌⟩◌, ◌∎, zero, suc,
}
use opentreasury.Prelude.Int.{pos, negsuc, ◌-ℤ◌, ◌*ℤ◌, ◌+ℤ◌}
use opentreasury.Platform.Number.{Number, nan, int, of_ℕ}
use opentreasury.Platform.Slice.{slice-pos}
use opentreasury.Api.Page.{Paging, PageWindow, page_or_first, page_window, paginate}

pos-sub_one : (n : ℕ) → pos (suc n) -ℤ pos 1 ≡ pos n
unfolding ◌-ℤ◌
pos-sub_one n = ground arith

pos-mul : (m n : ℕ) → pos m *ℤ pos n ≡ pos (m * n)
unfolding ◌*ℤ◌
pos-mul m n = ground arith

pos-add : (m n : ℕ) → pos m +ℤ pos n ≡ pos (m + n)
unfolding ◌+ℤ◌
pos-add m n = ground arith

pub page_or_first-pos : (o : Option Number) → (n : ℕ) × (page_or_first o ≡ of_ℕ (suc n))
unfolding page_or_first
page_or_first-pos none = (0, refl)
page_or_first-pos (some nan) = (0, refl)
page_or_first-pos (some (int (pos zero))) = (0, refl)
page_or_first-pos (some (int (pos (suc n)))) = (n, ground arith)
page_or_first-pos (some (int (negsuc n))) = (0, ground arith)

page_or_first-suc : (n : ℕ) → page_or_first (some (of_ℕ (suc n))) ≡ of_ℕ (suc n)
unfolding page_or_first
page_or_first-suc n = ground arith

-- Page `n + 1` of size `p`.
abbrev pub window_at : ℕ → ℕ → PageWindow
window_at n p = record { page = of_ℕ (suc n); page_size = of_ℕ p }

module _ {ℓ} {T : Type ℓ} where
  pub rows-paginate :
      (rows : List T) (n p : ℕ) → (paginate rows (window_at n p)).0 ≡ take p (drop (n * p) rows)
  unfolding paginate
  rows-paginate rows n p =
      rw (pos-sub_one n, pos-mul n p, pos-add (n * p) p) (slice-pos rows (n * p) p)

  -- The rows of the first `n` pages, in order.
  unfoldable pub first_pages : List T → ℕ → ℕ → List T
  first_pages rows p zero = []
  first_pages rows p (suc n) = first_pages rows p n ++ (paginate rows (window_at n p)).0

  pub first_pages-take : (rows : List T) (p n : ℕ) → first_pages rows p n ≡ take (n * p) rows
  unfolding first_pages
  first_pages-take rows p zero = ap (λ k. take k rows) (let e : 0 ≡ 0 * p = omega arith in e)
  first_pages-take rows p (suc n) =
      first_pages rows p n ++ (paginate rows (window_at n p)).0
      ≡⟨ (rw (first_pages-take rows p n, rows-paginate rows n p)) ⟩
        take (n * p) rows ++ take p (drop (n * p) rows)
      ≡⟨ sym (take-add (n * p) p rows) ⟩ take (n * p + p) rows
      ≡⟨ ap (λ k. take k rows) (let e : n * p + p ≡ suc n * p = omega arith in e) ⟩
        take (suc n * p) rows ∎

  -- With as many pages as the rows need, the pages in order are all the rows: none is lost, none
  -- is shown twice.
  pub pages-paginate : (rows : List T) (p n : ℕ) → length rows ≤ n * p → first_pages rows p n ≡ rows
  pages-paginate rows p n h = first_pages-take rows p n ∙ take_all (n * p) rows h

  -- A page has the rows that are left, up to the page size, and reports the window and the total.
  pub paginate_lem :
      (rows : List T) (n p : ℕ)
      → (length (paginate rows (window_at n p)).0 ≡ min p (length rows - n * p))
        × ((paginate rows (window_at n p)).1
            ≡ record { page = of_ℕ (suc n); page_size = of_ℕ p; total = of_ℕ (length rows) })
  paginate_lem rows n p = (
    rw (rows-paginate rows n p)
        (omega (arith, length-take p (drop (n * p) rows), length-drop (n * p) rows)),
    unfold paginate in refl,
  )

  -- The same for the window of a filter that asks for page `n + 1` of size `p`.
  pub paginate-page_window :
      (rows : List T) (filter : Paging) (n p : ℕ)
      → filter.page ≡ some (of_ℕ (suc n))
      → filter.page_size ≡ some (of_ℕ p)
      → paginate rows (page_window filter) ≡ (
        take p (drop (n * p) rows),
        record { page = of_ℕ (suc n); page_size = of_ℕ p; total = of_ℕ (length rows) },
      )
  unfolding page_window paginate
  paginate-page_window rows filter n p e h =
      rw (e, h, page_or_first-suc n)
        λ i. (
          rows-paginate rows n p i,
          record { page = of_ℕ (suc n); page_size = of_ℕ p; total = of_ℕ (length rows) },
        )

-- ===== src/Table/Range/Laws.antt =====
-- The range that a table shows is the range of rows that `paginate` gives, and the pages that it
-- offers are as many as the rows need.
use opentreasury.Prelude.{
  ℕ, zero, suc, ◌+◌, ◌-◌, ◌*◌, ◌/◌, ◌%◌, ◌≤◌, ◌<◌, ◌≡◌, ◌≢◌, List, length, arith, if◌then◌else◌,
  ◌==◌, refl,
}
use opentreasury.Api.Page.{paginate}
use opentreasury.Api.Page.Laws.{window_at, paginate_lem}
use opentreasury.Table.Range.{max, ceil_div, page_count, range_start, range_end}

pages_lem :
    (total s q r : ℕ)
    → total + s ≡ q * suc s + r
    → r ≤ s
    → (total ≤ max 1 q * suc s) × (total ≢ 0 → (max 1 q - 1) * suc s < total)
pages_lem total s zero r e h = ground arith
pages_lem total s (suc q) r e h =
    let m : max 1 (suc q) ≡ suc q = omega arith in
    let p : suc q - 1 ≡ q = omega arith in rw (m, p) (ground arith)

-- Of at least one row, the pages that the table offers hold all rows, and one page less holds fewer.
pub page_count_lem :
    (total s : ℕ)
    → total ≢ 0
    → (total ≤ page_count total (suc s) * suc s) × ((page_count total (suc s) - 1) * suc s < total)
unfolding page_count ceil_div
page_count_lem total s ne =
    let p : suc s - 1 ≡ s = omega arith in
    let pages =
      pages_lem total s ((total + s) / suc s) ((total + s) % suc s) (omega arith) (omega arith) in
    rw p (pages.0, pages.1 ne)

mul_mono : (m n s : ℕ) → m ≤ n → m * s ≤ n * s
mul_mono m n zero h = omega arith
mul_mono m n (suc s) h = omega (arith, mul_mono m n s h)

-- On each page of a table the numbers shown for the first and the last row count exactly the rows
-- that `paginate` gives for that page: from one after the rows of the pages before.
pub range-paginate {ℓ} :
    {T : Type ℓ} (rows : List T) (n s : ℕ)
    → n < page_count (length rows) (suc s)
    → length rows ≢ 0
    → (range_start (suc n) (suc s) (length rows) ≡ n * suc s + 1)
      × (range_start (suc n) (suc s) (length rows) + length (paginate rows (window_at n (suc s))).0
          ≡ range_end (suc n) (suc s) (length rows) + 1)
unfolding range_start range_end
range-paginate rows n s h ne =
    let start : (if length rows == 0 then 0 else n * suc s + 1) ≡ n * suc s + 1 = ground arith in
    let before : n * suc s < length rows = omega (
      arith,
      (page_count_lem (length rows) s ne).1,
      mul_mono n (page_count (length rows) (suc s) - 1) (suc s) (omega arith),
    ) in
    let p : suc n - 1 ≡ n = omega arith in
    rw (p, start) (refl, omega (arith, (paginate_lem rows n (suc s)).0))

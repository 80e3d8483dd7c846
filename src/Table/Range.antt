-- ===== src/Table/Range.antt =====
-- apps/web/src/components/data-table/data-table.tsx: the range of rows that a table shows. The
-- page and the page size come from the URL's state, which gives positive integers, and the total
-- from a list result.
pub mod Laws
use opentreasury.Prelude.{ℕ, zero, suc, ◌+◌, ◌-◌, ◌*◌, ◌/◌, min, if◌then◌else◌, ◌==◌}

-- `Math.ceil(total / pageSize)`
unfoldable pub ceil_div : ℕ → ℕ → ℕ
ceil_div total page_size = (total + (page_size - 1)) / page_size

abbrev pub max : ℕ → ℕ → ℕ
max m n = m + (n - m)

unfoldable pub page_count : ℕ → ℕ → ℕ
unfolding ceil_div
page_count total page_size = max 1 (ceil_div total page_size)

unfoldable pub range_start : ℕ → ℕ → ℕ → ℕ
range_start page page_size total = if total == 0 then 0 else (page - 1) * page_size + 1

unfoldable pub range_end : ℕ → ℕ → ℕ → ℕ
range_end page page_size total = min (page * page_size) total

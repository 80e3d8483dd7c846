-- ===== src/Api/Page.antt =====
-- apps/web/src/api.ts: `PageInfo`, `PageWindow`, `pageWindow`, `paginate` and `fallbackPageInfo`.
pub mod Laws
use opentreasury.Prelude.{
  ℕ, zero, suc, Bool, true, false, ◌&&◌, List, Option, none, some, if◌then◌else◌, length, or_else,
}
use opentreasury.Platform.Number.{Number, is_truthy, lt, sub, mul, add, of_ℕ}
use opentreasury.Platform.Slice.{slice}

pub record PageInfo : Type 0 where
  pub page : Number
  pub page_size : Number
  pub total : Number

pub record PageWindow : Type 0 where
  pub page : Number
  pub page_size : Number

-- The optional paging fields that every list filter has.
pub record Paging : Type 0 where
  pub page : Option Number
  pub page_size : Option Number
  pub limit : Option Number

unfoldable pub page_or_first : Option Number → Number
page_or_first none = of_ℕ 1
page_or_first (some p) = if is_truthy p && lt (of_ℕ 0) p then p else of_ℕ 1

unfoldable pub page_window : Paging → PageWindow
unfolding page_or_first
page_window filter = record {
  page = page_or_first filter.page;
  page_size = or_else filter.page_size (or_else filter.limit (of_ℕ 15));
}

module _ {ℓ} {T : Type ℓ} where
  unfoldable pub paginate : List T → PageWindow → List T × PageInfo
  paginate rows window =
      let start = mul (sub window.page (of_ℕ 1)) window.page_size in
      (
        slice rows start (add start window.page_size),
        record { page = window.page; page_size = window.page_size; total = of_ℕ (length rows) },
      )

unfoldable pub fallback_page_info : Paging → ℕ → PageInfo
unfolding page_window
fallback_page_info filter count =
    let window = page_window filter in
    record { page = window.page; page_size = window.page_size; total = of_ℕ count }

-- ===== src/Table/View.antt =====
-- apps/web/src/components/data-table/data-table.tsx: what a table shows, and what its footer's
-- buttons do. A cell is the texts that it shows, in order.
pub mod Laws
use opentreasury.Prelude.{
  ℕ, zero, suc, ◌+◌, ◌-◌, Bool, true, false, ◌||◌, List, [], ◌∷◌, ◌++◌, map, Option, none, some,
  if◌then◌else◌, leb, or_else, length, ◌==◌,
}
use opentreasury.Prelude.Int.{pos, negsuc}
use opentreasury.Prelude.Text.{Text, codes}
use opentreasury.Platform.Number.{Number, nan, int, of_ℕ}
use opentreasury.Platform.Decimal.{show_ℕ}
use opentreasury.Platform.Query.{Query}
use opentreasury.Api.Page.{PageInfo}
use opentreasury.Api.Request.{ListResult, listed, failed}
use opentreasury.Table.Range.{page_count, range_start, range_end}
use opentreasury.Table.Url.{set_page, set_page_size}

abbrev pub page_size_options : List ℕ
page_size_options = 15 ∷ 25 ∷ 50 ∷ 100 ∷ []

pub record Column {ℓ} (A : Type ℓ) : Type ℓ where
  pub header : Text
  pub cell : A → List Text

pub record DataTableProps {ℓ} (A : Type ℓ) : Type ℓ where
  pub columns : List (Column A)
  pub rows : List A
  pub total : ℕ
  pub page : ℕ
  pub page_size : ℕ
  pub is_pending : Bool
  pub error : Option Text
  pub empty_message : Text

pub data Body : Type 0 where
  skeleton : Body
  empty_state : Text → Body
  grid : (headers : List Text) (rows : List (List (List Text))) → Body

pub record DataTable : Type 0 where
  pub body : Body
  pub range : Text
  pub place : Text
  pub previous_disabled : Bool
  pub next_disabled : Bool

module _ {ℓ} {A : Type ℓ} where
  unfoldable pub cells : List (Column A) → A → List (List Text)
  cells columns row = map (λ c. c.cell row) columns

  unfoldable pub table_body : DataTableProps A → Body
  unfolding cells
  table_body props =
      if props.is_pending
      then skeleton
      else if length props.rows == 0
      then empty_state (or_else props.error props.empty_message)
      else grid (map (λ c. c.header) props.columns) (map (cells props.columns) props.rows)

  unfoldable pub data_table : DataTableProps A → DataTable
  unfolding table_body
  data_table props = record {
    body = table_body props;
    range =
        show_ℕ (range_start props.page props.page_size props.total)
        ++ codes "–"
        ++ show_ℕ (range_end props.page props.page_size props.total)
        ++ codes " of "
        ++ show_ℕ props.total;
    place = show_ℕ props.page ++ codes " / " ++ show_ℕ (page_count props.total props.page_size);
    previous_disabled = leb props.page 1 || props.is_pending;
    next_disabled = leb (page_count props.total props.page_size) props.page || props.is_pending;
  }

-- `onClick` of the buttons, with `setPage` as the page passes it on.
unfoldable pub on_previous : ℕ → Query → Query
on_previous page q = set_page (of_ℕ (page - 1)) q

unfoldable pub on_next : ℕ → Query → Query
on_next page q = set_page (of_ℕ (page + 1)) q

-- A total as the footer counts with it: it is no negative number.
abbrev pub count_of : Number → ℕ
count_of nan = 0
count_of (int (pos n)) = n
count_of (int (negsuc n)) = 0

-- A query of the pages: its result, once there is one.
pub record Fetched {ℓ} (A : Type ℓ) : Type ℓ where
  pub result : Option (ListResult A)
  pub is_pending : Bool

module _ {ℓ} {A : Type ℓ} where
  -- `result?.ok ? result.rows : []`
  unfoldable pub rows_of : Option (ListResult A) → List A
  rows_of none = []
  rows_of (some (listed rows pagination)) = rows
  rows_of (some (failed reason)) = []

  -- `result?.ok ? result.pagination.total : 0`
  unfoldable pub total_of : Option (ListResult A) → ℕ
  total_of none = 0
  total_of (some (listed rows pagination)) = count_of pagination.total
  total_of (some (failed reason)) = 0

  -- `result?.ok === false ? result.error : undefined`
  unfoldable pub error_of : Option (ListResult A) → Option Text
  error_of none = none
  error_of (some (listed rows pagination)) = none
  error_of (some (failed reason)) = some reason

  -- The props that a page gives its table.
  unfoldable pub table_props : List (Column A) → Fetched A → ℕ → ℕ → Text → DataTableProps A
  unfolding rows_of total_of error_of
  table_props columns fetched page page_size empty_message = record {
    columns = columns;
    rows = rows_of fetched.result;
    total = total_of fetched.result;
    page = page;
    page_size = page_size;
    is_pending = fetched.is_pending;
    error = error_of fetched.result;
    empty_message = empty_message;
  }

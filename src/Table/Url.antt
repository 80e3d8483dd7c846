-- ===== src/Table/Url.antt =====
-- apps/web/src/components/data-table/use-table-url-state.ts. The functions that a component calls
-- to change its table are functions on the query of the URL. `Number(raw)` is a parameter, as far
-- as it gives an integer: `integer_of`, with none for any other number and for NaN.
pub mod Laws
use opentreasury.Prelude.{
  ℕ, zero, suc, Bool, true, false, not, ◌&&◌, ◌||◌, List, [], ◌∷◌, Option, none, some,
  if◌then◌else◌, or_else,
}
use opentreasury.Prelude.Int.{ℤ, pos, negsuc}
use opentreasury.Prelude.Text.{Text, codes, same, is_truthy}
use opentreasury.Platform.Number.{Number, nan, int, le, eq, of_ℕ}
use opentreasury.Platform.Decimal.{show}
use opentreasury.Platform.Query.{Query, get, delete, set}

abbrev pub default_page_size : ℕ
default_page_size = 15

abbrev pub page_key : Text
page_key = codes "page"

abbrev pub page_size_key : Text
page_size_key = codes "pageSize"

-- `reservedKeys.has(key)`
unfoldable pub is_reserved : Text → Bool
is_reserved key = same key page_key || same key page_size_key

-- `Number.isInteger(value) && value > 0 ? value : undefined`
abbrev pub positive : Option ℤ → Option ℕ
positive none = none
positive (some (pos zero)) = none
positive (some (pos (suc n))) = some (suc n)
positive (some (negsuc n)) = none

module _ (integer_of : Text → Option ℤ) where
  unfoldable pub positive_int : Option Text → Option ℕ
  positive_int none = none
  positive_int (some raw) = if is_truthy raw then positive (integer_of raw) else none

  unfoldable pub page_of : Query → ℕ
  unfolding positive_int
  page_of q = or_else (positive_int (get page_key q)) 1

  unfoldable pub page_size_of : Query → ℕ
  unfolding positive_int
  page_size_of q = or_else (positive_int (get page_size_key q)) default_page_size

-- `!reservedKeys.has(key) && value !== ""`
unfoldable pub is_filter : Text → Text → Bool
unfolding is_reserved
is_filter key value = not (is_reserved key) && not (same value [])

-- The loop over the query. The object that it fills is a list of pairs with distinct names. The one
-- name that a plain object does not store, `__proto__`, is left out of the model: no control of the
-- client uses it.
unfoldable pub collect : Query → Query → Query
unfolding is_filter
collect collected [] = collected
collect collected ((key, value) ∷ q) =
    collect (if is_filter key value then set key value collected else collected) q

unfoldable pub filters : Query → Query
unfolding collect
filters q = collect [] q

unfoldable pub set_filter : Text → Option Text → Query → Query
set_filter key none q = delete page_key (delete key q)
set_filter key (some value) q =
    delete page_key (if same value [] then delete key q else set key value q)

unfoldable pub set_page : Number → Query → Query
set_page next_page q =
    if le next_page (of_ℕ 1) then delete page_key q else set page_key (show next_page) q

unfoldable pub set_page_size : Number → Query → Query
set_page_size next_page_size q = delete page_key (
    if eq next_page_size (of_ℕ default_page_size)
    then delete page_size_key q
    else set page_size_key (show next_page_size) q)

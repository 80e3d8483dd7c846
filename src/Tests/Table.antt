-- ===== src/Tests/Table.antt =====
-- The state and the range of a table at concrete inputs.
use opentreasury.Prelude.{
  ℕ, suc, ◌+◌, ◌-◌, ◌*◌, ◌≡◌, ◌<◌, refl, ap, ◌∙◌, false, List, [], ◌∷◌, Option, some, if◌then◌else◌,
  or_else, ◌==◌, arith, length,
}
use opentreasury.Prelude.Int.{ℤ, pos, negsuc}
use opentreasury.Prelude.Predicates.{All}
use opentreasury.Prelude.Text.{Text, codes, same}
use opentreasury.Platform.Number.{int}
use opentreasury.Platform.Decimal.{
  show, show_ℤ, show_ℕ, value, value-show_ℕ, IsDigit, show_ℕ-digits,
}
use opentreasury.Platform.Query.{Query, get}
use opentreasury.Api.Page.{paginate}
use opentreasury.Api.Page.Laws.{window_at}
use opentreasury.Table.Range.{page_count, range_start, range_end}
use opentreasury.Table.Range.Laws.{range-paginate}
use opentreasury.Table.Url.{
  positive, is_reserved, page_of, page_size_of, filters, set_filter, set_page,
}
use opentreasury.Table.Url.Laws.{given_value, set_filter_lem, set_page_lem}

-- A reader of decimal integers in the place of `Number(raw)`.
abbrev pub read_decimal : Text → Option ℤ
read_decimal [] = some (pos 0)
read_decimal (c ∷ s) = some (if c == b'-' then negsuc (value 0 s - 1) else pos (value 0 (c ∷ s)))

read_digits : (s : Text) → All IsDigit s → read_decimal s ≡ some (pos (value 0 s))
read_digits [] h = refl
read_digits (c ∷ s) (d, h) = let e : (c == b'-') ≡ false = ground arith in rw e refl

pub read_decimal-show : (z : ℤ) → read_decimal (show (int z)) ≡ some z
unfolding show show_ℤ
read_decimal-show (pos n) =
    read_digits (show_ℕ n) (show_ℕ-digits n) ∙ ap (λ k. some (pos k)) (value-show_ℕ n)
read_decimal-show (negsuc n) =
    let e : value 0 (show_ℕ (suc n)) - 1 ≡ n = omega (arith, value-show_ℕ (suc n)) in
    ap (λ k. some (negsuc k)) e

abbrev query : Query
query =
    (codes "status", codes "POSTED")
    ∷ (codes "page", codes "3")
    ∷ (codes "pageSize", codes "50")
    ∷ []

not_reserved : is_reserved (codes "status") ≡ false
unfolding is_reserved same
not_reserved = refl

set_filter_lem_example :
    (page_of read_decimal (set_filter (codes "status") (some (codes "PENDING")) query) ≡ 1)
    × (page_size_of read_decimal (set_filter (codes "status") (some (codes "PENDING")) query)
        ≡ page_size_of read_decimal query)
    × (get (codes "status") (filters (set_filter (codes "status") (some (codes "PENDING")) query))
        ≡ (if same (codes "status") (codes "status")
            then given_value (some (codes "PENDING"))
            else get (codes "status") (filters query)))
set_filter_lem_example =
    set_filter_lem read_decimal (codes "status") (codes "status") (some (codes "PENDING")) query
      not_reserved

set_page_lem_example :
    (page_of read_decimal (set_page (int (pos 4)) query) ≡ or_else (positive (some (pos 4))) 1)
    × (page_size_of read_decimal (set_page (int (pos 4)) query) ≡ page_size_of read_decimal query)
    × (get (codes "status") (filters (set_page (int (pos 4)) query))
        ≡ get (codes "status") (filters query))
set_page_lem_example = set_page_lem read_decimal read_decimal-show (pos 4) (codes "status") query

abbrev three : List ℕ
three = 10 ∷ 20 ∷ 30 ∷ []

in_range : 1 < page_count (length three) 2
unfolding page_count
in_range = omega arith

range-paginate_example :
    (range_start 2 2 (length three) ≡ 1 * 2 + 1)
    × (range_start 2 2 (length three) + length (paginate three (window_at 1 2)).0
        ≡ range_end 2 2 (length three) + 1)
range-paginate_example = range-paginate three 1 1 in_range (omega arith)

-- ===== src/Tests/Api/Lists.antt =====
-- Pages at concrete inputs.
use opentreasury.Prelude.{ℕ, ◌≡◌, List, [], ◌∷◌, arith}
use opentreasury.Api.Page.Laws.{first_pages, pages-paginate}

abbrev three : List ℕ
three = 10 ∷ 20 ∷ 30 ∷ []

pages-paginate_example : first_pages three 2 2 ≡ three
pages-paginate_example = pages-paginate three 2 2 (omega arith)

-- ===== src/Api/Params.antt =====
-- How the path builders of the web client fill a `URLSearchParams`: a parameter is set where its
-- filter is truthy, and the query goes behind `?` where it is not empty.
pub mod Laws
use opentreasury.Prelude.{Bool, true, false, ◌∷◌, ◌++◌, [], Option, none, some, if◌then◌else◌}
use opentreasury.Prelude.Text
use opentreasury.Prelude.Text.{Text, codes}
use opentreasury.Platform.Decimal.{show}
use opentreasury.Platform.Number
use opentreasury.Platform.Number.{Number}
use opentreasury.Platform.Query.{Query, set}
use opentreasury.Platform.Percent.{to_string}

-- The value of an optional string where it counts as true.
abbrev pub given : Option Text → Option Text
given none = none
given (some s) = if Text.is_truthy s then some s else none

-- `String(n)` of an optional number where it counts as true.
abbrev pub given_number : Option Number → Option Text
given_number none = none
given_number (some n) = if Number.is_truthy n then some (show n) else none

-- `if (value) params.set(name, value)`.
abbrev pub set_given : Text → Option Text → Query → Query
set_given name none params = params
set_given name (some v) params = set name v params

-- `query ? path + "?" + query : path`, for the query of the parameters.
unfoldable pub with_query : Text → Query → Text
with_query path params =
    let query = to_string params in if Text.is_truthy query then path ++ b'?' ∷ query else path

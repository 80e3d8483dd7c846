-- ===== src/Api/Filter.antt =====
-- apps/web/src/api.ts: the tests of the demo mode's filter chains. A filter that is missing or
-- falsy lets every row through.
pub mod Laws
use opentreasury.Prelude.{Bool, true, Option, none, some, if◌then◌else◌}
use opentreasury.Prelude.Text
use opentreasury.Prelude.Text.{Text, same, le_text, starts_with}
use opentreasury.Platform.Decimal.{show}
use opentreasury.Platform.Number
use opentreasury.Platform.Number.{Number, eq, le}

-- `!f || x === f`
unfoldable pub equals_text : Option Text → Text → Bool
equals_text none x = true
equals_text (some f) x = if Text.is_truthy f then same x f else true

-- `!f || x >= f`
unfoldable pub from_text : Option Text → Text → Bool
from_text none x = true
from_text (some f) x = if Text.is_truthy f then le_text f x else true

-- `!f || x <= f`
unfoldable pub until_text : Option Text → Text → Bool
until_text none x = true
until_text (some f) x = if Text.is_truthy f then le_text x f else true

-- `!f || x === f`
unfoldable pub equals_number : Option Number → Number → Bool
equals_number none x = true
equals_number (some f) x = if Number.is_truthy f then eq x f else true

-- `!f || x >= f`
unfoldable pub from_number : Option Number → Number → Bool
from_number none x = true
from_number (some f) x = if Number.is_truthy f then le f x else true

-- `!f || x <= f`
unfoldable pub until_number : Option Number → Number → Bool
until_number none x = true
until_number (some f) x = if Number.is_truthy f then le x f else true

-- `!f || x.startsWith(String(f))`
unfoldable pub starts_with_number : Option Number → Text → Bool
starts_with_number none x = true
starts_with_number (some f) x = if Number.is_truthy f then starts_with x (show f) else true

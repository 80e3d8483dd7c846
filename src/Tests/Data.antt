-- ===== src/Tests/Data.antt =====
-- What the tests share. No code of the repository is modelled here.
use opentreasury.Prelude.{◌≡◌, Bool, true, ◌&&◌, [], ◌∷◌, ltb, arith}
use opentreasury.Prelude.Predicates.{All}
use opentreasury.Prelude.Text.{Text}
use opentreasury.Platform.Query.{Query}
use opentreasury.Platform.Percent.Decode.{IsUnit}
use opentreasury.Platform.Percent.Parse.{AllUnits}

-- A test for code units.
abbrev is_text : Text → Bool
is_text [] = true
is_text (c ∷ s) = ltb c 65536 && is_text s

abbrev all_units : Query → Bool
all_units [] = true
all_units ((k, v) ∷ q) = is_text k && is_text v && all_units q

is_text_sound : (s : Text) → is_text s ≡ true → All IsUnit s
is_text_sound [] h = tt
is_text_sound (c ∷ s) h = (ground arith, is_text_sound s (ground arith))

pub all_units_sound : (q : Query) → all_units q ≡ true → AllUnits q
all_units_sound [] h = tt
all_units_sound ((k, v) ∷ q) h = (
  (is_text_sound k (ground arith), is_text_sound v (ground arith)),
  all_units_sound q (ground arith),
)

-- ===== src/Table/Filters.antt =====
-- apps/web/src/components/data-table/filters.tsx: the controls over a table. A control reads its
-- filters from the URL and hands new ones to the page, as optional texts.
pub mod Laws
use opentreasury.Prelude.{
  ℕ, Bool, true, false, not, ◌&&◌, ◌||◌, List, [], ◌∷◌, ◌++◌, Option, none, some, if◌then◌else◌,
  or_else,
}
use opentreasury.Prelude.Text.{Text, codes, same, is_truthy}
use opentreasury.Platform.Double.{
  Double, times, over, math_round, is_finite, is_negative, show_double,
}
use opentreasury.Platform.Double.Literal.{trim, number}

-- The choice of a select for no filter.
abbrev pub clear : Text
clear = codes "__all__"

-- SelectFilter: the value that is shown, and the filter for the value that is chosen.
unfoldable pub select_value : Option Text → Text
select_value value = or_else value clear

unfoldable pub on_value_change : Text → Option Text
on_value_change next = if same next clear then none else some next

-- An option of a select.
pub record Choice : Type 0 where
  pub value : Text
  pub label : Text

-- The choices that a select offers: the one for no filter, then the options.
unfoldable pub choices : Text → List Choice → List Choice
choices placeholder options = record { value = clear; label = placeholder } ∷ options

-- An optional text in a condition.
abbrev pub is_set : Option Text → Bool
is_set none = false
is_set (some s) = is_truthy s

abbrev pub text_of : Option Text → Text
text_of none = []
text_of (some s) = s

-- DateRangeFilter: the text of its button.
unfoldable pub range_display : Option Text → Option Text → Text
range_display date_from date_to =
    if is_set date_from && is_set date_to
    then text_of date_from ++ codes " → " ++ text_of date_to
    else if is_set date_from
    then codes "From " ++ text_of date_from
    else codes "Any time"

-- A range of the calendar, whose type is a parameter, as `format` on its days is.
pub record DateRange {ℓ} (Day : Type ℓ) : Type ℓ where
  pub from : Option Day
  pub to : Option Day

unfoldable pub format_day {ℓ} : {Day : Type ℓ} → (Day → Text) → Option Day → Option Text
format_day format none = none
format_day format (some day) = some (format day)

-- `onSelect`: the two filters for the selected range.
unfoldable pub on_select {ℓ} :
    {Day : Type ℓ} → (Day → Text) → Option (DateRange Day) → Option Text × Option Text
unfolding format_day
on_select format none = (none, none)
on_select format (some range) = (format_day format range.from, format_day format range.to)

pub data AmountOperator : Type 0 where
  gte lte eq between : AmountOperator

unfoldable pub derive_operator : Option Text → Option Text → AmountOperator
derive_operator amount_gte amount_lte =
    if is_set amount_gte && is_set amount_lte
    then (if same (text_of amount_gte) (text_of amount_lte) then eq else between)
    else if is_set amount_lte
    then lte
    else gte

-- The state of an AmountFilter.
pub record AmountFilter : Type 0 where
  pub operator : AmountOperator
  pub primary : Text
  pub secondary : Text

-- `String(x)` of fractions is the parameter `print`.
module _ (print : Double → Text) where
  abbrev pub major_of : Double → Text
  major_of value = if is_finite value then show_double print (over value 100) else []

  unfoldable pub to_major : Option Text → Text
  to_major none = []
  to_major (some minor) = if is_truthy minor then major_of (number minor) else []

  abbrev pub minor_of : Double → Option Text
  minor_of value =
      if not (is_finite value) || is_negative value
      then none
      else some (show_double print (math_round (times value 100)))

  unfoldable pub to_minor : Text → Option Text
  to_minor major = if same (trim major) [] then none else minor_of (number major)

  -- The state that the filters of the URL stand for, at first and whenever they change.
  unfoldable pub sync : Option Text → Option Text → AmountFilter
  unfolding derive_operator to_major
  sync amount_gte amount_lte =
      let derived = derive_operator amount_gte amount_lte in
      record {
        operator = derived;
        primary = to_major (elim derived [
          | gte ↦ amount_gte
          | lte ↦ amount_lte
          | eq ↦ amount_gte
          | between ↦ amount_gte
        ]);
        secondary = to_major amount_lte;
      }

  -- `apply`: the filters that are handed to the page.
  unfoldable pub apply : AmountFilter → Option Text × Option Text
  unfolding to_minor
  apply filter =
      let value = to_minor filter.primary in
      let upper = to_minor filter.secondary in
      elim filter.operator [
        | gte ↦ (value, none)
        | lte ↦ (none, value)
        | eq ↦ (value, value)
        | between ↦ (value, upper)
      ]

-- The button that clears the filter is there where one is given.
unfoldable pub shows_clear : Option Text → Option Text → Bool
shows_clear amount_gte amount_lte = elim amount_gte [
  | none ↦ is_set amount_lte
  | some s ↦ is_truthy s
]

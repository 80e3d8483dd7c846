-- ===== src/Table/Filters/Laws.antt =====
-- Amounts travel in minor units, exactly.
use opentreasury.Prelude.{
  ℕ, zero, suc, ◌/◌, ◌%◌, ◌^◌, ◌<◌, ◌≡◌, ◌≢◌, refl, ap, ◌∙◌, true, false, [], ◌∷◌, Option, none,
  some, arith, ltb, ◌==◌,
}
use opentreasury.Prelude.Text.{Text, same, same_iff, same_refl, is_truthy}
use opentreasury.Platform.Decimal.{show_ℕ, value, value-show_ℕ, show_ℕ_injective}
use opentreasury.Platform.Double.{Double, finite, show_double}
use opentreasury.Platform.Double.Cents.{cents_lem, hundredths-is_finite}
use opentreasury.Platform.Double.Literal.Laws.{two_decimals, number-two_decimals, trim-two_decimals}
use opentreasury.Table.Filters.{
  to_minor, apply, AmountOperator, gte, lte, eq, between, derive_operator, clear, select_value,
  on_value_change,
}

-- The one filter that is not handed on is the text of the choice for none.
pub on_value_change-select_value :
    (value : Option Text) → value ≢ some clear → on_value_change (select_value value) ≡ value
unfolding on_value_change select_value
on_value_change-select_value none h = rw (same_refl clear) refl
on_value_change-select_value (some s) h =
    let e : same s clear ≡ false = ground (arith, same_iff s clear) in rw e refl

show_integer :
    (print : Double → Text) (c : ℕ) → c < 10 ^ 21 → show_double print (finite false c 1) ≡ show_ℕ c
unfolding show_double
show_integer print c h =
    let whole : (c % 1 == 0) ≡ true = ground arith in
    let same_count : c / 1 ≡ c = omega arith in
    let small : ltb c (10 ^ 21) ≡ true = ground arith in rw (whole, same_count, small) refl

-- An amount of `c` minor units, below 2 ^ 50, that is typed with two decimals is handed on as `c`.
pub to_minor-two_decimals :
    (print : Double → Text) (c : ℕ) → c < 2 ^ 50 → to_minor print (two_decimals c) ≡ some (show_ℕ c)
unfolding to_minor
to_minor-two_decimals print c h =
    let (finite_, positive) = hundredths-is_finite c h in
    rw (trim-two_decimals c, number-two_decimals c, finite_, positive)
      (ap (λ x. some (show_double print x)) (cents_lem c c 100 (omega arith) h (omega arith))
        ∙ ap some (show_integer print c (omega arith)))

pub print_is_set : (c : ℕ) → is_truthy (show_ℕ c) ≡ true
print_is_set zero = unfold show_ℕ in refl
print_is_set (suc c) = has_digits (show_ℕ (suc c)) (value-show_ℕ (suc c))
  where
    has_digits : (s : Text) → value 0 s ≡ suc c → is_truthy s ≡ true
    has_digits [] e = absurd (omega (arith, e))
    has_digits (d ∷ s) e = refl

-- Of two amounts below 2 ^ 50 that differ, typed with two decimals, the two filters that are handed
-- to the page stand for the same operator.
pub derive_operator-apply :
    (print : Double → Text) (operator : AmountOperator) (c d : ℕ)
    → c < 2 ^ 50
    → d < 2 ^ 50
    → c ≢ d
    → let handed =
        apply print
          (record { operator = operator; primary = two_decimals c; secondary = two_decimals d }) in
      derive_operator handed.0 handed.1 ≡ operator
unfolding apply derive_operator
derive_operator-apply print operator c d hc hd differ =
    kept operator (to_minor-two_decimals print c hc) (to_minor-two_decimals print d hd)
  where
    texts_differ : same (show_ℕ c) (show_ℕ d) ≡ false
    texts_differ = ground (arith, same_iff (show_ℕ c) (show_ℕ d), differ, show_ℕ_injective c d)

    kept :
        (o : AmountOperator)
        → to_minor print (two_decimals c) ≡ some (show_ℕ c)
        → to_minor print (two_decimals d) ≡ some (show_ℕ d)
        → let handed =
            apply print
              (record { operator = o; primary = two_decimals c; secondary = two_decimals d }) in
          derive_operator handed.0 handed.1 ≡ o
    kept gte e₁ e₂ = rw (e₁, print_is_set c) refl
    kept lte e₁ e₂ = rw (e₁, print_is_set c) refl
    kept eq e₁ e₂ = rw (e₁, print_is_set c, same_refl (show_ℕ c)) refl
    kept between e₁ e₂ = rw (e₁, e₂, print_is_set c, print_is_set d, texts_differ) refl

-- ===== src/Pages/Amounts.antt =====
-- What becomes of the amounts that are applied in the filter of the transactions page
-- (apps/web/src/components/data-table/filters.tsx: AmountFilter), from the typed texts to the URL.
-- The router is the parameter `commit`, as for the other events of the page.
use opentreasury.Prelude.{
  ℕ, ◌<◌, ◌^◌, ◌≡◌, ◌≢◌, ◌++◌, refl, ◌∙◌, true, List, [], ◌∷◌, Option, none, some,
}
use opentreasury.Prelude.Text.{Text, codes, same, is_truthy}
use opentreasury.Platform.Decimal.{show_ℕ}
use opentreasury.Platform.Double.Literal.Laws.{two_decimals}
use opentreasury.Platform.Query.{Query}
use opentreasury.Table.Filters.{
  AmountOperator, gte, lte, eq, between, AmountFilter, apply, derive_operator,
}
use opentreasury.Table.Filters.Laws.{to_minor-two_decimals, print_is_set, derive_operator-apply}
use opentreasury.Table.Url.{is_reserved, set_filter}
use opentreasury.Table.Url.Laws.{given_value}
use opentreasury.Pages.{Host, filter_of, on_amounts}
use opentreasury.Pages.Events.{other_filter, own_filter}

-- The upper bound that stands in the URL behind the event: of two amounts that are typed, the one
-- that the last call of `setFilter` carries, in minor units.
abbrev pub upper_bound : AmountOperator → ℕ → ℕ → Option Text
upper_bound gte c d = none
upper_bound lte c d = some (show_ℕ c)
upper_bound eq c d = some (show_ℕ c)
upper_bound between c d = some (show_ℕ d)

-- The operator that the filter then shows.
abbrev pub read_back : AmountOperator → AmountOperator
read_back gte = gte
read_back lte = lte
read_back eq = lte
read_back between = lte

given_value-set : (t : Text) → is_truthy t ≡ true → given_value (some t) ≡ some t
unfolding same
given_value-set [] h = cc
given_value-set (c ∷ t) h = refl

-- The state of the filter in which two amounts are typed with two decimals.
abbrev pub typed : AmountOperator → ℕ → ℕ → AmountFilter
typed operator c d = record {
  operator = operator;
  primary = two_decimals c;
  secondary = two_decimals d;
}

module _ (host : Host) where
  handed_upper :
      (operator : AmountOperator) (c d : ℕ)
      → c < 2 ^ 50
      → d < 2 ^ 50
      → given_value (apply host.print (typed operator c d)).1 ≡ upper_bound operator c d
  unfolding apply
  handed_upper gte c d hc hd = refl
  handed_upper lte c d hc hd =
      rw (to_minor-two_decimals host.print c hc) (given_value-set (show_ℕ c) (print_is_set c))
  handed_upper eq c d hc hd =
      rw (to_minor-two_decimals host.print c hc) (given_value-set (show_ℕ c) (print_is_set c))
  handed_upper between c d hc hd =
      rw (to_minor-two_decimals host.print d hd) (given_value-set (show_ℕ d) (print_is_set d))

  derived :
      (operator : AmountOperator) (c d : ℕ)
      → derive_operator none (upper_bound operator c d) ≡ read_back operator
  unfolding derive_operator
  derived gte c d = refl
  derived lte c d = rw (print_is_set c) refl
  derived eq c d = rw (print_is_set c) refl
  derived between c d = rw (print_is_set d) refl

  module _ (commit : List (Query → Query) → Query → Query)
      (last_stands : (updates : List (Query → Query)) (update : Query → Query) (q : Query)
        → commit (updates ++ update ∷ []) q ≡ update q) where
    -- Two amounts below 2 ^ 50 that differ are typed with two decimals and applied, in a URL
    -- without a lower bound. The filters that are handed to the page stand for the operator that
    -- was chosen. Where the last call of an event stands, the URL has no lower bound then, and as
    -- upper bound the last one that was handed on: a choice of `eq` or `between` reads back as
    -- `lte`, and a choice of `gte` leaves no bound at all.
    pub derive_operator-commit :
        (operator : AmountOperator) (c d : ℕ) (q : Query)
        → c < 2 ^ 50
        → d < 2 ^ 50
        → c ≢ d
        → filter_of (codes "amountGte") q ≡ none
        → let handed = apply host.print (typed operator c d) in
          let after = commit (on_amounts handed) q in
          (derive_operator handed.0 handed.1 ≡ operator)
          × (filter_of (codes "amountGte") after ≡ none)
          × (filter_of (codes "amountLte") after ≡ upper_bound operator c d)
          × (derive_operator
                (filter_of (codes "amountGte") after)
                (filter_of (codes "amountLte") after)
              ≡ read_back operator)
    unfolding on_amounts
    derive_operator-commit operator c d q hc hd differ no_lower =
        let handed = apply host.print (typed operator c d) in
        let update = set_filter (codes "amountLte") handed.1 in
        let stands = last_stands (set_filter (codes "amountGte") handed.0 ∷ []) update q in
        let lower : filter_of (codes "amountGte") (update q) ≡ none =
          other_filter (codes "amountLte") (codes "amountGte") handed.1 q
            (unfold is_reserved same in refl) (unfold same in refl)
          ∙ no_lower in
        let upper : filter_of (codes "amountLte") (update q) ≡ upper_bound operator c d =
          own_filter (codes "amountLte") handed.1 q (unfold is_reserved same in refl)
          ∙ handed_upper operator c d hc hd in
        (
          derive_operator-apply host.print operator c d hc hd differ,
          rw stands lower,
          rw stands upper,
          rw (stands, lower, upper) (derived operator c d),
        )

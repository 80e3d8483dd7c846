-- ===== src/Forms/Laws.antt =====
-- What the history form asks the API for.
use opentreasury.Prelude.{
  ℕ, ◌≤◌, ◌≡◌, ◌≢◌, refl, ◌⊎◌, inl, inr, true, false, Option, none, some, arith,
}
use opentreasury.Platform.Double.{Double, nan, infinite, finite}
use opentreasury.Platform.Double.Literal.{number}
use opentreasury.Platform.Number.{of_ℕ}
use opentreasury.Forms.{
  HistoryFilterForm, positive_integer, at_most_hundred, asked_year, asked_limit,
  to_transaction_list_filter,
}

positive_integer-pos : (x : Double) (n : ℕ) → positive_integer x ≡ some n → n ≢ 0
unfolding positive_integer
positive_integer-pos nan n h = cc
positive_integer-pos (infinite negative) n h = cc
positive_integer-pos (finite true num den) n h = cc
positive_integer-pos (finite false num den) n h = ground (arith, h)

-- Whatever is typed into the history form, the limit that it asks for is none or a number from 1
-- to 100, and the year is none or a positive number.
pub to_transaction_list_filter_lem :
    (form : HistoryFilterForm)
    → (((to_transaction_list_filter form).limit ≡ none)
        ⊎ ((n : ℕ) × ((to_transaction_list_filter form).limit ≡ some (of_ℕ n))
            × (1 ≤ n)
            × (n ≤ 100)))
      × (((to_transaction_list_filter form).fiscal_year ≡ none)
          ⊎ ((n : ℕ) × ((to_transaction_list_filter form).fiscal_year ≡ some (of_ℕ n)) × (1 ≤ n)))
unfolding to_transaction_list_filter
to_transaction_list_filter_lem form = (
  limit (positive_integer (number form.limit)) refl,
  year (positive_integer (number form.fiscal_year)) refl,
)
  where
    Limit : Option ℕ → Type 0
    Limit o =
        (asked_limit o ≡ none) ⊎ ((n : ℕ) × (asked_limit o ≡ some (of_ℕ n)) × (1 ≤ n) × (n ≤ 100))

    limit : (o : Option ℕ) → positive_integer (number form.limit) ≡ o → Limit o
    limit none e = inl refl
    limit (some n) e =
        let positive = positive_integer-pos (number form.limit) n e in
        inr (at_most_hundred n, refl, ground (arith, positive), ground arith)

    Year : Option ℕ → Type 0
    Year o = (asked_year o ≡ none) ⊎ ((n : ℕ) × (asked_year o ≡ some (of_ℕ n)) × (1 ≤ n))

    year : (o : Option ℕ) → positive_integer (number form.fiscal_year) ≡ o → Year o
    year none e = inl refl
    year (some n) e =
        let positive = positive_integer-pos (number form.fiscal_year) n e in
        inr (n, refl, omega (arith, positive))

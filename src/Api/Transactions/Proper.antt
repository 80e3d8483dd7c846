-- ===== src/Api/Transactions/Proper.antt =====
-- What the list filter of apps/web/src/history.ts asks, by its fields alone: each text that is given
-- is not empty, and each number that is given is a number other than zero.
use opentreasury.Prelude.{zero, suc, ◌≡◌, ◌≢◌, ◌↔◌, refl, [], ◌∷◌, Option, none, some}
use opentreasury.Prelude.Int.{ℤ, pos, negsuc}
use opentreasury.Prelude.Text.{Text}
use opentreasury.Platform.Decimal.{show}
use opentreasury.Platform.Number.{Number, nan, int, of_ℕ}
use opentreasury.Api.Params.{given, given_number}
use opentreasury.Api.Filter.Laws.{Wanted, WantedNumber}
use opentreasury.Api.Transactions.{TransactionListFilter}

abbrev pub IsFilled : Option Text → Type 0
IsFilled none = Unit
IsFilled (some s) = s ≢ []

abbrev pub IsNonzero : Option Number → Type 0
IsNonzero none = Unit
IsNonzero (some n) = (n ≢ nan) × (n ≢ of_ℕ 0)

pub record IsProper (f : TransactionListFilter) : Type 0 where
  pub institution : IsFilled f.institution_id
  pub year : IsNonzero f.fiscal_year
  pub status : IsFilled f.status
  pub since : IsFilled f.date_from
  pub until : IsFilled f.date_to
  pub above : IsNonzero f.amount_gte
  pub below : IsNonzero f.amount_lte
  pub page : IsNonzero f.page
  pub size : IsNonzero f.page_size
  pub limit : IsNonzero f.limit

-- What a filter asks where it is given.
abbrev pub Asks {ℓ} : {A : Type ℓ} → Option A → (A → Type 0) → Type 0
Asks none P = Unit
Asks (some x) P = P x

-- A condition on the integer of a number.
abbrev pub OnInt : (ℤ → Type 0) → Number → Type 0
OnInt P nan = ⊥
OnInt P (int z) = P z

-- The text of a number.
abbrev pub printed : Option Number → Option Text
printed none = none
printed (some n) = some (show n)

pub given-IsFilled : (o : Option Text) → IsFilled o → given o ≡ o
given-IsFilled none h = refl
given-IsFilled (some []) h = absurd (h refl)
given-IsFilled (some (c ∷ s)) h = refl

pub given_number-IsNonzero : (o : Option Number) → IsNonzero o → given_number o ≡ printed o
given_number-IsNonzero none h = refl
given_number-IsNonzero (some nan) h = absurd (h.0 refl)
given_number-IsNonzero (some (int (pos zero))) h = absurd (h.1 refl)
given_number-IsNonzero (some (int (pos (suc n)))) h = refl
given_number-IsNonzero (some (int (negsuc n))) h = refl

pub Wanted-Asks : (o : Option Text) (P : Text → Type 0) → IsFilled o → Wanted o P ↔ Asks o P
Wanted-Asks none P h = (λ x. x, λ x. x)
Wanted-Asks (some []) P h = absurd (h refl)
Wanted-Asks (some (c ∷ s)) P h = (λ x. x, λ x. x)

pub WantedNumber-Asks :
    (o : Option Number) (P : ℤ → Type 0) → IsNonzero o → WantedNumber o P ↔ Asks o (OnInt P)
WantedNumber-Asks none P h = (λ x. x, λ x. x)
WantedNumber-Asks (some nan) P h = absurd (h.0 refl)
WantedNumber-Asks (some (int (pos zero))) P h = absurd (h.1 refl)
WantedNumber-Asks (some (int (pos (suc n)))) P h = (λ x. x, λ x. x)
WantedNumber-Asks (some (int (negsuc n))) P h = (λ x. x, λ x. x)

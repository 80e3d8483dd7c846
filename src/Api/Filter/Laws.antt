-- ===== src/Api/Filter/Laws.antt =====
-- What a row that passes a test fulfils, and which rows a filter keeps.
use mathlib.Core.List.{Memᴰ}
use mathlib.Core.List.Memᴰ
use opentreasury.Prelude.{
  zero, suc, ◌≡◌, ◌↔◌, refl, Bool, true, List, [], ◌∷◌, Option, none, some, arith, filter,
  Bool-cases, inl, inr,
}
use opentreasury.Prelude.Int.{ℤ, pos, negsuc, ◌≤ℤ◌, eq_of_parts}
use opentreasury.Prelude.Text.{Text, same_iff, le_text, starts_with}
use opentreasury.Platform.Decimal.{show}
use opentreasury.Platform.Number.{Number, nan, int}
use opentreasury.Api.Filter.{
  equals_text, from_text, until_text, equals_number, from_number, until_number, starts_with_number,
}

-- A condition on a text filter, where it is given.
abbrev pub Wanted : Option Text → (Text → Type 0) → Type 0
Wanted none P = Unit
Wanted (some []) P = Unit
Wanted (some (c ∷ s)) P = P (c ∷ s)

-- A condition on a number filter, where it is given: zero and NaN are no filters.
abbrev pub WantedNumber : Option Number → (ℤ → Type 0) → Type 0
WantedNumber none P = Unit
WantedNumber (some nan) P = Unit
WantedNumber (some (int (pos zero))) P = Unit
WantedNumber (some (int (pos (suc n)))) P = P (pos (suc n))
WantedNumber (some (int (negsuc n))) P = P (negsuc n)

pub equals_text_iff :
    (o : Option Text) (x : Text) → (equals_text o x ≡ true) ↔ Wanted o (λ f. x ≡ f)
unfolding equals_text
equals_text_iff none x = (λ _. tt, λ _. refl)
equals_text_iff (some []) x = (λ _. tt, λ _. refl)
equals_text_iff (some (c ∷ s)) x = same_iff x (c ∷ s)

pub from_text_iff :
    (o : Option Text) (x : Text) → (from_text o x ≡ true) ↔ Wanted o (λ f. le_text f x ≡ true)
unfolding from_text
from_text_iff none x = (λ _. tt, λ _. refl)
from_text_iff (some []) x = (λ _. tt, λ _. refl)
from_text_iff (some (c ∷ s)) x = (λ h. h, λ h. h)

pub until_text_iff :
    (o : Option Text) (x : Text) → (until_text o x ≡ true) ↔ Wanted o (λ f. le_text x f ≡ true)
unfolding until_text
until_text_iff none x = (λ _. tt, λ _. refl)
until_text_iff (some []) x = (λ _. tt, λ _. refl)
until_text_iff (some (c ∷ s)) x = (λ h. h, λ h. h)

-- The orders of an amount and a bound: NaN is in no order.
abbrev pub AtLeast : Number → ℤ → Type 0
AtLeast nan b = ⊥
AtLeast (int a) b = b ≤ℤ a

abbrev pub AtMost : Number → ℤ → Type 0
AtMost nan b = ⊥
AtMost (int a) b = a ≤ℤ b

pub equals_number_iff :
    (o : Option Number) (x : Number) → (equals_number o x ≡ true) ↔ WantedNumber o (λ f. x ≡ int f)
unfolding equals_number
equals_number_iff none x = (λ _. tt, λ _. refl)
equals_number_iff (some nan) x = (λ _. tt, λ _. refl)
equals_number_iff (some (int (pos zero))) x = (λ _. tt, λ _. refl)
equals_number_iff (some (int (pos (suc n)))) nan = ground arith
equals_number_iff (some (int (pos (suc n)))) (int a) = ground (arith, eq_of_parts a (pos (suc n)))
equals_number_iff (some (int (negsuc n))) nan = ground arith
equals_number_iff (some (int (negsuc n))) (int a) = ground (arith, eq_of_parts a (negsuc n))

pub from_number_iff :
    (o : Option Number) (x : Number) → (from_number o x ≡ true) ↔ WantedNumber o (AtLeast x)
unfolding from_number
from_number_iff none x = (λ _. tt, λ _. refl)
from_number_iff (some nan) x = (λ _. tt, λ _. refl)
from_number_iff (some (int (pos zero))) x = (λ _. tt, λ _. refl)
from_number_iff (some (int (pos (suc n)))) nan = ground arith
from_number_iff (some (int (pos (suc n)))) (int a) = ground arith
from_number_iff (some (int (negsuc n))) nan = ground arith
from_number_iff (some (int (negsuc n))) (int a) = ground arith

pub until_number_iff :
    (o : Option Number) (x : Number) → (until_number o x ≡ true) ↔ WantedNumber o (AtMost x)
unfolding until_number
until_number_iff none x = (λ _. tt, λ _. refl)
until_number_iff (some nan) x = (λ _. tt, λ _. refl)
until_number_iff (some (int (pos zero))) x = (λ _. tt, λ _. refl)
until_number_iff (some (int (pos (suc n)))) nan = ground arith
until_number_iff (some (int (pos (suc n)))) (int a) = ground arith
until_number_iff (some (int (negsuc n))) nan = ground arith
until_number_iff (some (int (negsuc n))) (int a) = ground arith

pub starts_with_number_iff :
    (o : Option Number) (x : Text)
    → (starts_with_number o x ≡ true) ↔ WantedNumber o (λ f. starts_with x (show (int f)) ≡ true)
unfolding starts_with_number
starts_with_number_iff none x = (λ _. tt, λ _. refl)
starts_with_number_iff (some nan) x = (λ _. tt, λ _. refl)
starts_with_number_iff (some (int (pos zero))) x = (λ _. tt, λ _. refl)
starts_with_number_iff (some (int (pos (suc n)))) x = (λ h. h, λ h. h)
starts_with_number_iff (some (int (negsuc n))) x = (λ h. h, λ h. h)

-- A row is kept exactly where it stands in the list and passes the test.
module _ {ℓ} {A : Type ℓ} (p : A → Bool) where
  pub mem_of_mem_filter : {x : A} (xs : List A) → Memᴰ x (filter p xs) → Memᴰ x xs × (p x ≡ true)
  mem_of_mem_filter [] m = elim m [ ]
  mem_of_mem_filter {x} (y ∷ ys) m = elim (Bool-cases (p y)) [
    | inl e ↦
        let kept : Memᴰ x (y ∷ filter p ys) = rw e at m in
        elim (Memᴰ.cases_cons kept) [
          | inl here ↦ (Memᴰ.head here, rw here e)
          | inr later ↦
              let (listed, passed) = mem_of_mem_filter ys later in (Memᴰ.tail listed, passed)
        ]
    | inr e ↦
        let later : Memᴰ x (filter p ys) = rw e at m in
        let (listed, passed) = mem_of_mem_filter ys later in (Memᴰ.tail listed, passed)
  ]

  pub mem_filter_of_mem : {x : A} (xs : List A) → Memᴰ x xs → p x ≡ true → Memᴰ x (filter p xs)
  mem_filter_of_mem [] m h = elim m [ ]
  mem_filter_of_mem {x} (y ∷ ys) (Memᴰ.head e) h =
      let passed : p y ≡ true = rw (← e) h in rw passed (Memᴰ.head e)
  mem_filter_of_mem (y ∷ ys) (Memᴰ.tail later) h = elim (Bool-cases (p y)) [
    | inl e ↦ rw e (Memᴰ.tail (mem_filter_of_mem ys later h))
    | inr e ↦ rw e (mem_filter_of_mem ys later h)
  ]

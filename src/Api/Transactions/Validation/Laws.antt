-- ===== src/Api/Transactions/Validation/Laws.antt =====
-- Which transactions the demo mode accepts, and how the answers of its functions agree.
use opentreasury.Prelude.{
  ℕ, zero, suc, ◌||◌, ◌≤◌, ◌≡◌, ◌≢◌, ◌↔◌, ◌⊎◌, inl, inr, refl, Bool, true, false, [], ◌∷◌, arith,
}
use opentreasury.Prelude.Int.{pos, negsuc}
use opentreasury.Prelude.Text.{Text, is_truthy}
use opentreasury.Platform.Number.{Number, nan, int, le, is_nan, of_ℕ}
use opentreasury.Api.Request.{Env, is_demo}
use opentreasury.Api.Post.{PostRequest, PostReply, ApiResult, ok, error, demo_data, ResultData}
use opentreasury.Api.Transactions.{TreasuryTransaction}
use opentreasury.Api.Transactions.Validation.{
  DemoData, created, is_currency, simulate_validation, validate_transaction, create_transaction,
  validation_response,
}

abbrev pub IsUpper : ℕ → Type 0
IsUpper c = (b'A' ≤ c) × (c ≤ b'Z')

-- Three capital letters.
abbrev pub IsCurrency : Text → Type 0
IsCurrency s = (a b c : ℕ) × (s ≡ a ∷ b ∷ c ∷ []) × IsUpper a × IsUpper b × IsUpper c

abbrev pub IsPositive : Number → Type 0
IsPositive x = (n : ℕ) × (x ≡ int (pos (suc n)))

-- What a transaction has to fulfil.
pub record IsValid (is_nan_date : Text → Bool) (t : TreasuryTransaction) : Type 0 where
  pub id : t.id ≢ []
  pub institution : t.institution_id ≢ []
  pub year : IsPositive t.fiscal_year
  pub amount : IsPositive t.amount_minor
  pub currency : IsCurrency t.currency
  pub description : t.description ≢ []
  pub date : t.transaction_date ≢ []
  pub parsed : is_nan_date t.transaction_date ≡ false

IsPositive-iff : (x : Number) → ((le x (of_ℕ 0) || is_nan x) ≡ false) ↔ IsPositive x
IsPositive-iff nan = (λ h. cc h, λ p. absurd (nan_not_int p.1))
  where
    nan_not_int : {n : ℕ} → ¬ (nan ≡ int (pos (suc n)))
    nan_not_int e = cc
IsPositive-iff (int (pos zero)) = (λ h. ground arith, λ p. ground arith)
IsPositive-iff (int (pos (suc n))) = (λ h. (n, refl), λ p. ground arith)
IsPositive-iff (int (negsuc n)) = (λ h. ground arith, λ p. ground arith)

is_truthy_iff : (s : Text) → (is_truthy s ≡ true) ↔ (s ≢ [])
is_truthy_iff [] = (λ h. cc, λ h. absurd (h refl))
is_truthy_iff (c ∷ s) = (λ h. cc, λ h. refl)

is_currency_sound : (s : Text) → is_currency s ≡ true → IsCurrency s
unfolding is_currency
is_currency_sound (a ∷ b ∷ c ∷ []) h = (a, b, c, refl, ground arith, ground arith, ground arith)
is_currency_sound [] h = cc
is_currency_sound (a ∷ []) h = cc
is_currency_sound (a ∷ b ∷ []) h = cc
is_currency_sound (a ∷ b ∷ c ∷ d ∷ s) h = cc

is_currency_complete : (s : Text) → IsCurrency s → is_currency s ≡ true
unfolding is_currency
is_currency_complete s (a, b, c, e, ha, hb, hc) = rw e (ground arith)

module _ {ℓ} {J : Type ℓ} (is_nan_date : Text → Bool) (t : TreasuryTransaction) where
  complete :
      IsValid is_nan_date t → simulate_validation {J = J} is_nan_date t ≡ validation_response t
  unfolding simulate_validation
  complete v = ground (
    arith,
    (is_truthy_iff t.id).1 v.id,
    (is_truthy_iff t.institution_id).1 v.institution,
    (IsPositive-iff t.fiscal_year).1 v.year,
    (IsPositive-iff t.amount_minor).1 v.amount,
    is_currency_complete t.currency v.currency,
    (is_truthy_iff t.description).1 v.description,
    (is_truthy_iff t.transaction_date).1 v.date,
    v.parsed,
  )

  sound :
      {s : ℕ} {d : ResultData DemoData J}
      → simulate_validation is_nan_date t ≡ ok s d
      → IsValid is_nan_date t
  unfolding simulate_validation
  sound e = record {
    id = (is_truthy_iff _).0 (ground arith);
    institution = (is_truthy_iff _).0 (ground arith);
    year = (IsPositive-iff _).0 (ground arith);
    amount = (IsPositive-iff _).0 (ground arith);
    currency = is_currency_sound _ (ground arith);
    description = (is_truthy_iff _).0 (ground arith);
    date = (is_truthy_iff _).0 (ground arith);
    parsed = ground arith;
  }

  rejected_status :
      {s : ℕ} {m : Text} → simulate_validation {J = J} is_nan_date t ≡ error s m → s ≡ 400
  unfolding simulate_validation
  rejected_status e = ground arith

  -- A valid transaction is answered with its fields, any other with status 400 and a message.
  pub simulate_validation_lem :
      (IsValid is_nan_date t × (simulate_validation {J = J} is_nan_date t ≡ validation_response t))
      ⊎ ((m : Text) × (¬ IsValid is_nan_date t)
          × (simulate_validation {J = J} is_nan_date t ≡ error 400 m))
  simulate_validation_lem = go (simulate_validation is_nan_date t) refl
    where
      go :
          (r : ApiResult DemoData J)
          → simulate_validation is_nan_date t ≡ r
          → (IsValid is_nan_date t
              × (simulate_validation {J = J} is_nan_date t ≡ validation_response t))
            ⊎ ((m : Text) × (¬ IsValid is_nan_date t)
                × (simulate_validation {J = J} is_nan_date t ≡ error 400 m))
      go (ok s d) e = inl (sound e, complete (sound e))
      go (error s m) e = inr (m, λ v. cc (complete v), rw (← rejected_status e) e)

-- In demo mode validating and creating agree: a valid transaction is answered with status 200 and
-- its fields, and created with status 201 and its id; any other is refused by both with status 400
-- and the same message.
pub create-validate {ℓ} :
    {J : Type ℓ} (is_nan_date : Text → Bool) (env : Env)
    (fetch : PostRequest TreasuryTransaction → PostReply J) (t : TreasuryTransaction)
    → is_demo env.api_base_url ≡ true
    → (IsValid is_nan_date t
        × (validate_transaction is_nan_date env fetch t ≡ validation_response t)
        × (create_transaction is_nan_date env fetch t ≡ ok 201 (demo_data (created t.id))))
      ⊎ ((m : Text) × (¬ IsValid is_nan_date t)
          × (validate_transaction is_nan_date env fetch t ≡ error 400 m)
          × (create_transaction is_nan_date env fetch t ≡ error 400 m))
unfolding validate_transaction create_transaction
create-validate {J} is_nan_date env fetch t demo =
    elim (simulate_validation_lem {J = J} is_nan_date t) [
      | inl (v, e) ↦ inl (v, ground arith, ground arith)
      | inr (m, v, e) ↦ inr (m, v, ground arith, ground arith)
    ]

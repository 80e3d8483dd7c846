-- ===== src/Pages/Commitments/Dialog/Demo.antt =====
-- The dialog with the API client behind it, in the demo mode.
use mathlib.Core.Path.{subst}
use opentreasury.Prelude.{
  ℕ, suc, ◌*◌, ◌<◌, ◌^◌, ◌≡◌, refl, sym, ap, ◌∙◌, true, false, List, ◌∷◌, none, arith,
}
use opentreasury.Prelude.Int.{pos, negsuc}
use opentreasury.Prelude.Text.{Text}
use opentreasury.Platform.Double.{Double, finite, times, math_round}
use opentreasury.Platform.Double.Literal.{trim, number}
use opentreasury.Platform.Double.Literal.Laws.{two_decimals}
use opentreasury.Platform.Number.{Number, nan, int, of_ℕ}
use opentreasury.Api.Commitments.{Commitment, opened}
use opentreasury.Api.Commitments.Creation.{
  CommitmentInput, CreateResult, ok, new_commitment, create_commitment,
}
use opentreasury.Api.Post.{PostRequest, PostReply}
use opentreasury.Api.Request.{Env}
use opentreasury.Pages.Commitments.Dialog.{
  Form, Dialog, Input, input_of, set, after_create, submit, success_toast,
}
use opentreasury.Pages.Commitments.Dialog.Laws.{amount_minor-two_decimals}

-- The double that is a number of the API client's types.
unfoldable pub double_of : Number → Double
double_of nan = Double.nan
double_of (int (pos n)) = finite false n 1
double_of (int (negsuc n)) = finite true (suc n) 1

-- The number of the API client's types that a double is. Two fractions may be one number.
unfoldable pub IsNumber : Number → Double → Type 0
IsNumber n x = Equals (double_of n) x
  where
    Equals : Double → Double → Type 0
    Equals Double.nan Double.nan = true ≡ true
    Equals (Double.infinite s) (Double.infinite t) = s ≡ t
    Equals (finite s a b) (finite t c d) = (s ≡ t) × (a * d ≡ c * b)
    Equals x y = true ≡ false

-- The input of the API client that stands for the one that the dialog makes.
pub record StandsFor (sent : CommitmentInput) (input : Input) : Type 0 where
  pub id : sent.id ≡ input.id
  pub institution : sent.institution_id ≡ input.institution_id
  pub year : IsNumber sent.fiscal_year input.fiscal_year
  pub account : sent.account_code ≡ input.account_code
  pub description : sent.description ≡ input.description
  pub amount : IsNumber sent.amount_minor input.amount_minor
  pub currency : sent.currency ≡ input.currency
  pub date : sent.committed_date ≡ input.committed_date

IsNumber-finite : (n : Number) (c : ℕ) → IsNumber n (finite false c 1) → n ≡ of_ℕ c
unfolding IsNumber double_of
IsNumber-finite nan c e = cc
IsNumber-finite (int (pos n)) c (s, e) = let h : n ≡ c = omega (arith, e) in ap of_ℕ h
IsNumber-finite (int (negsuc n)) c (s, e) = cc

-- An amount that is typed with two decimals is exact.
pub amount_of :
    (upper : Text → Text) (form : Form) (c : ℕ)
    → c < 2 ^ 50
    → form.amount_major ≡ two_decimals c
    → (input_of upper form).amount_minor ≡ finite false c 1
unfolding input_of set
amount_of upper form c small typed =
    subst (λ t. math_round (times (number t) 100) ≡ finite false c 1) (sym typed)
      (amount_minor-two_decimals upper form c small)

-- What a press of the button leads to, where `outcome` is the answer of the API client with the
-- rows behind it, and `after` the dialog behind the press.
pub record Adds (upper : Text → Text) (form : Form) (c : ℕ) (store : List Commitment)
    (outcome : List Commitment × CreateResult) (before after : Dialog) : Type 0 where
  pub added : Commitment
  pub answer : outcome ≡ (added ∷ store, ok)
  pub id : added.id ≡ trim form.id
  pub institution : added.institution_id ≡ form.institution_id
  pub year : IsNumber added.fiscal_year (number form.fiscal_year)
  pub account : added.account_code ≡ trim form.account_code
  pub description : added.description ≡ trim form.description
  pub currency : added.currency ≡ upper (trim form.currency)
  pub date : added.committed_date ≡ form.committed_date
  pub amount : added.amount_minor ≡ of_ℕ c
  pub settled : added.settled_amount_minor ≡ of_ℕ 0
  pub remaining : added.remaining_amount_minor ≡ of_ℕ c
  pub status : added.status ≡ opened
  pub closed : after.is_open ≡ false
  pub told : after.toasts ≡ success_toast (trim form.id) ∷ before.toasts

-- In the demo mode, where the form of the dialog has an amount of `c` minor units below 2 ^ 50,
-- typed with two decimals, and the input that the dialog makes of it is sent as the API client's:
-- behind a press of the button the rows of the demo mode start with a new commitment, open, with
-- the institution and the date of the form, the trimmed id, account and description, the currency
-- trimmed and in capitals, the year as a number, and exactly `c` minor units, none settled and all
-- remaining; the dialog that was submitted is closed, with a toast of the trimmed id.
pub create_commitment-submit {ℓ} :
    {J : Type ℓ} (env : Env) (fetch : PostRequest CommitmentInput → PostReply J)
    (upper : Text → Text) (wire : Input → CommitmentInput) (store : List Commitment)
    (dialog : Dialog) (c : ℕ)
    → env.api_base_url ≡ none
    → c < 2 ^ 50
    → dialog.form.amount_major ≡ two_decimals c
    → StandsFor (wire (input_of upper dialog.form)) (input_of upper dialog.form)
    → let create = λ (input : Input). create_commitment env fetch (wire input) store in
      Adds upper dialog.form c store
        (create (input_of upper dialog.form))
        dialog
        (submit upper (λ input. (create input).1) dialog)
unfolding create_commitment new_commitment submit
create_commitment-submit env fetch upper wire store dialog c demo small typed stands =
    let sent = wire (input_of upper dialog.form) in
    let amount : sent.amount_minor ≡ of_ℕ c = IsNumber-finite sent.amount_minor c (
      subst (IsNumber sent.amount_minor) (amount_of upper dialog.form c small typed)
        stands.amount) in
    record {
      added = new_commitment sent;
      answer = rw demo refl;
      id = stands.id ∙ unfold input_of in refl;
      institution = stands.institution ∙ unfold input_of in refl;
      year = unfold input_of in stands.year;
      account = stands.account ∙ unfold input_of in refl;
      description = stands.description ∙ unfold input_of in refl;
      currency = stands.currency ∙ unfold input_of in refl;
      date = stands.date ∙ unfold input_of in refl;
      amount = amount;
      settled = refl;
      remaining = amount;
      status = refl;
      closed = rw demo (unfold after_create in refl);
      told = rw demo (unfold after_create in refl);
    }

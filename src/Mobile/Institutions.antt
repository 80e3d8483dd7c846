-- ===== src/Mobile/Institutions.antt =====
-- apps/mobile/src/app/(tabs)/institutions.tsx: the list of institutions, of which one at most is
-- expanded. `useQuery` gives the state of a request as an argument.
use opentreasury.Prelude.{
  ◌≡◌, ◌≢◌, Bool, not, List, [], ◌∷◌, ◌++◌, map, Option, none, some, if◌then◌else◌, arith,
}
use opentreasury.Prelude.Text.{Text, codes, same, same_iff, same_refl}
use opentreasury.Platform.Number.{of_ℕ}
use opentreasury.Mobile.{
  Pagination, PublicInstitution, PublicBalance, PublicReply, PublicResult, public_institutions,
  public_balances, format_money,
}

pub record PublicQuery {ℓ} (A : Type ℓ) : Type ℓ where
  pub data_ : Option (List A × Pagination)
  pub is_loading : Bool
  pub is_error : Bool

-- The requests of the two queries.
unfoldable pub institutions_request :
    Option Text
    → (Text → PublicReply (List PublicInstitution × Pagination))
    → PublicResult (List PublicInstitution × Pagination)
institutions_request api_url fetch = public_institutions api_url fetch (of_ℕ 1) (of_ℕ 50)

unfoldable pub balances_request :
    Option Text
    → (Text → PublicReply (List PublicBalance × Pagination))
    → Text
    → PublicResult (List PublicBalance × Pagination)
balances_request api_url fetch expanded =
    public_balances api_url fetch (some expanded) (of_ℕ 1) (of_ℕ 50)

-- Whether the request for the balances is made.
unfoldable pub balances_enabled : Text → Bool
balances_enabled expanded = not (same expanded [])

-- `onPress` of a card: the id that is expanded after it.
unfoldable pub on_press : Text → Text → Text
on_press item expanded = if same expanded item then [] else item

pub data Balances : Type 0 where
  closed : Balances
  loading_balances : Balances
  no_balances : Balances
  lines : List (Text × Text) → Balances

unfoldable pub balance_line : PublicBalance → Text × Text
balance_line balance = (
  balance.account_code ++ b' ' ∷ balance.account_name,
  format_money balance.balance_minor balance.currency,
)

abbrev pub balances_shown : Option (List PublicBalance × Pagination) → Balances
balances_shown none = no_balances
balances_shown (some ([], pagination)) = no_balances
balances_shown (some (balance ∷ balances, pagination)) =
    lines (map balance_line (balance ∷ balances))

unfoldable pub balances_of : Text → PublicQuery PublicBalance → Text → Balances
unfolding balance_line
balances_of expanded query item =
    if same expanded item
    then (if query.is_loading then loading_balances else balances_shown query.data_)
    else closed

pub record InstitutionCard : Type 0 where
  pub name : Text
  pub caption : Text
  pub status : Text
  pub balances : Balances

unfoldable pub institution_card :
    Text → PublicQuery PublicBalance → PublicInstitution → InstitutionCard
unfolding balances_of
institution_card expanded query item = record {
  name = item.name;
  caption = item.id ++ codes " · " ++ item.type ++ codes " · " ++ item.country_code;
  status = item.status;
  balances = balances_of expanded query item.id;
}

unfoldable pub cards :
    Text → PublicQuery PublicInstitution → PublicQuery PublicBalance → List InstitutionCard
unfolding institution_card
cards expanded institutions balances = elim institutions.data_ [
  | none ↦ []
  | some page ↦ map (institution_card expanded balances) page.0
]

unfoldable pub empty_text : PublicQuery PublicInstitution → Text
empty_text institutions =
    if institutions.is_loading
    then codes "Loading…"
    else if institutions.is_error
    then codes "The public API is unreachable."
    else codes "No institutions published."

-- A press of a card closes every other card, and turns its own over: it is open behind the press
-- where it was closed, and then the balances are asked for, and only then.
pub on_press_lem :
    (expanded item other : Text) (query : PublicQuery PublicBalance)
    → item ≢ []
    → other ≢ []
    → item ≢ other
    → (balances_of (on_press item expanded) query other ≡ closed)
      × (same (on_press item expanded) item ≡ not (same expanded item))
      × (balances_enabled (on_press item expanded) ≡ not (same expanded item))
unfolding on_press balances_of balances_enabled
on_press_lem expanded item other query h k apart = (
  ground (arith, same_iff item other, same_iff [] other, apart, k),
  ground (arith, same_iff [] item, same_refl item, h),
  ground (arith, same_iff item [], same_refl [], h),
)

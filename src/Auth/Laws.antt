-- ===== src/Auth/Laws.antt =====
-- Where a sign-in leads, and which token the API client sends behind it.
use opentreasury.Prelude.{
  ◌≡◌, ◌↔◌, inl, inr, refl, Bool-cases, true, false, not, ◌&&◌, Option, none, some, arith, or_else,
}
use opentreasury.Prelude.Text.{Text, codes, starts_with}
use opentreasury.Auth.{
  User, AuthState, destination, handle_callback, load_user, current_access_token, current_user,
  to_auth_user,
}

-- A path of the same origin, as the store tests it.
abbrev pub IsLocal : Text → Type 0
IsLocal s = (starts_with s (codes "/") ≡ true) × (starts_with s (codes "//") ≡ false)

destination-IsLocal : (o : Option Text) → IsLocal (destination o)
unfolding destination starts_with
destination-IsLocal none = (refl, refl)
destination-IsLocal (some r) =
    elim (Bool-cases (starts_with r (codes "/") && not (starts_with r (codes "//")))) [
      | inl e ↦ rw e (ground arith, ground arith)
      | inr e ↦ rw e (refl, refl)
    ]

-- Every callback of a client with sign-in leads to a path that starts with one slash, whatever the
-- library gives.
pub handle_callback-IsLocal :
    (called : Option User) (state : AuthState)
    → (location : Text) × ((handle_callback true called state).1 ≡ some location) × IsLocal location
unfolding handle_callback
handle_callback-IsLocal none state = (codes "/", refl, unfold starts_with in (refl, refl))
handle_callback-IsLocal (some user) state =
    (destination user.return_to, refl, destination-IsLocal user.return_to)

-- After loading, a client with sign-in has a token exactly where a user is stored that has not
-- expired, and it is that user's.
pub load_user-token :
    (stored : Option User) (state : AuthState) (token : Text)
    → (current_access_token (load_user true stored state) ≡ some token) ↔ (
        (user : User) × (stored ≡ some user)
        × (or_else user.expired false ≡ false)
        × (user.access_token ≡ token))
unfolding load_user current_access_token current_user to_auth_user
load_user-token none state token = (λ h. cc, λ (user, e, live, t). cc)
load_user-token (some stored) state token = elim (Bool-cases (or_else stored.expired false)) [
  | inl e ↦ rw e (λ h. cc, λ (user, same_user, live, t). cc)
  | inr e ↦ rw e (λ h. (stored, refl, e, cc), λ (user, same_user, live, t). cc)
]

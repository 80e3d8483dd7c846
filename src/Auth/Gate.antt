-- ===== src/Auth/Gate.antt =====
-- apps/web/src/components/login-gate.tsx and user-menu.tsx: what is shown for the state of the
-- sign-in store, and the effect that starts the sign-in when the gate is mounted.
pub mod Laws
use opentreasury.Prelude.{
  ℕ, suc, Bool, true, false, not, ◌||◌, List, [], ◌∷◌, ◌++◌, Option, none, some, if◌then◌else◌,
}
use opentreasury.Prelude.Text.{Text, codes, same, is_truthy}
use opentreasury.Auth.{AuthState, AuthUser}

abbrev pub callback_path : Text
callback_path = codes "/auth/callback"

-- The module variable `callbackStarted`, and the calls of the store that are under way.
pub record Gate : Type 0 where
  pub callback_started : Bool
  pub handling : ℕ
  pub loading : ℕ

unfoldable pub unmounted : Gate
unmounted = record { callback_started = false; handling = 0; loading = 0 }

-- The effect, which React runs twice in its strict mode.
unfoldable pub effect : Text → Gate → Gate
effect pathname gate =
    if same pathname callback_path
    then if not gate.callback_started
      then record gate { callback_started = true; handling = suc gate.handling }
      else gate
    else record gate { loading = suc gate.loading }

pub data Shown : Type 0 where
  children : Shown
  signing_in : Shown
  sign_in : Shown

abbrev pub is_some {ℓ} : {A : Type ℓ} → Option A → Bool
is_some none = false
is_some (some x) = true

unfoldable pub shown : Bool → Text → AuthState → Shown
shown auth_enabled pathname state =
    if not auth_enabled || is_some state.user
    then children
    else if not state.ready || same pathname callback_path
    then signing_in
    else sign_in

-- `roles.join(", ")`
unfoldable pub join_roles : List Text → Text
join_roles [] = []
join_roles (role ∷ []) = role
join_roles (role ∷ next ∷ roles) = role ++ codes ", " ++ join_roles (next ∷ roles)

pub record UserMenu : Type 0 where
  pub username : Text
  pub roles : Text
  pub institution : Option Text

abbrev pub or_no_roles : Text → Text
or_no_roles roles = if is_truthy roles then roles else codes "no roles"

abbrev pub institution_line : Option Text → Option Text
institution_line none = none
institution_line (some id) = if is_truthy id then some (codes "Institution: " ++ id) else none

unfoldable pub user_menu : Bool → AuthState → Option UserMenu
unfolding join_roles
user_menu auth_enabled state = if not auth_enabled then none else elim state.user [
  | none ↦ none
  | some user ↦ some (record {
    username = user.username;
    roles = or_no_roles (join_roles user.roles);
    institution = institution_line user.institution_id;
  })
]

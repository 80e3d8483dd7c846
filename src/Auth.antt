-- ===== src/Auth.antt =====
-- apps/web/src/stores/auth.ts: the sign-in store. The OIDC library is a parameter: what
-- `signinRedirectCallback` and `getUser` give is an argument.
pub mod Laws
pub mod Gate
use opentreasury.Prelude.{
  Bool, true, false, not, ◌&&◌, List, [], ◌∷◌, ◌++◌, Option, none, some, if◌then◌else◌, or_else,
}
use opentreasury.Prelude.Text.{Text, codes, starts_with}

-- A user of the OIDC library, with the fields of its profile that the store reads.
pub record User : Type 0 where
  pub preferred_username : Option Text
  pub institution_id : Option Text
  pub roles : Option (List Text)
  pub access_token : Text
  pub expired : Option Bool
  pub return_to : Option Text

pub record AuthUser : Type 0 where
  pub username : Text
  pub roles : List Text
  pub institution_id : Option Text
  pub access_token : Text

pub record AuthState : Type 0 where
  pub user : Option AuthUser
  pub ready : Bool

unfoldable pub to_auth_user : User → AuthUser
to_auth_user user = record {
  username = or_else user.preferred_username (codes "user");
  roles = or_else user.roles [];
  institution_id = user.institution_id;
  access_token = user.access_token;
}

-- The state that the store starts with.
unfoldable pub start : Bool → AuthState
start auth_enabled = record { user = none; ready = not auth_enabled }

-- The deep link that `login` hands to the sign-in, where there is one.
unfoldable pub login : Bool → Text → Text → Option Text
login auth_enabled pathname search = if auth_enabled then some (pathname ++ search) else none

unfoldable pub logout : AuthState → AuthState
logout state = record state { user = none }

-- Where a callback leads.
unfoldable pub destination : Option Text → Text
destination none = codes "/"
destination (some return_to) =
    if starts_with return_to (codes "/") && not (starts_with return_to (codes "//"))
    then return_to
    else codes "/"

-- The state behind a callback and the navigation, if there is one. The argument of the library is
-- none where the callback is rejected: the navigation happens all the same.
unfoldable pub handle_callback : Bool → Option User → AuthState → AuthState × Option Text
unfolding to_auth_user destination
handle_callback false called state = (state, none)
handle_callback true none state = (state, some (codes "/"))
handle_callback true (some user) state =
    (record { user = some (to_auth_user user); ready = true }, some (destination user.return_to))

-- `user && !user.expired ? toAuthUser(user) : null`
unfoldable pub current_user : Option User → Option AuthUser
unfolding to_auth_user
current_user none = none
current_user (some user) = if or_else user.expired false then none else some (to_auth_user user)

unfoldable pub load_user : Bool → Option User → AuthState → AuthState
unfolding current_user
load_user false stored state = record state { ready = true }
load_user true stored state = record { user = current_user stored; ready = true }

unfoldable pub current_access_token : AuthState → Option Text
current_access_token state = elim state.user [ none ↦ none | some user ↦ some user.access_token ]

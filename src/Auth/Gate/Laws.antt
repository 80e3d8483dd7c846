-- ===== src/Auth/Gate/Laws.antt =====
-- The gate over runs of the sign-in: its effects, the calls of the OIDC library that end, and
-- sign-outs, in any order.
use opentreasury.Prelude.{
  ◌≡◌, ◌≢◌, ◌≤◌, refl, ◌∙◌, true, false, none, some, arith, if◌then◌else◌, Bool-cases, inl, inr,
  List, [], ◌∷◌,
}
use opentreasury.Prelude.Text.{Text, same}
use opentreasury.Auth.{AuthState, User, start, logout, handle_callback, load_user, current_user}
use opentreasury.Auth.Gate.{Gate, unmounted, effect, shown, children, is_some, callback_path}

-- The gate after effects for the given paths.
pub effects : List Text → Gate → Gate
effects [] gate = gate
effects (path ∷ paths) gate = effects paths (effect path gate)

-- Once the callback has started it is not handled again, and it is handled as it starts.
AtMostOne : Gate → Type 0
AtMostOne gate = gate.handling ≡ (if gate.callback_started then 1 else 0)

AtMostOne-effect : (path : Text) (gate : Gate) → AtMostOne gate → AtMostOne (effect path gate)
unfolding AtMostOne effect
AtMostOne-effect path gate h = elim (Bool-cases (same path callback_path)) [
  | inl e ↦ elim (Bool-cases gate.callback_started) [
    | inl b ↦ rw (e, b) (h ∙ rw b refl)
    | inr b ↦ rw (e, b) (let none_yet : gate.handling ≡ 0 = h ∙ rw b refl in rw none_yet refl)
  ]
  | inr e ↦ rw e h
]

AtMostOne-effects :
    (paths : List Text) (gate : Gate) → AtMostOne gate → AtMostOne (effects paths gate)
unfolding effects
AtMostOne-effects [] gate h = h
AtMostOne-effects (path ∷ paths) gate h =
    AtMostOne-effects paths (effect path gate) (AtMostOne-effect path gate h)

-- However often the gate is mounted, and on whatever paths, the callback is handled at most once.
pub handling-effects : (paths : List Text) → (effects paths unmounted).handling ≤ 1
handling-effects paths =
    bound (effects paths unmounted)
      (AtMostOne-effects paths unmounted (unfold AtMostOne unmounted in refl))
  where
    bound : (gate : Gate) → AtMostOne gate → gate.handling ≤ 1
    bound gate h = unfold AtMostOne in ground (arith, h)

module _ {κ} (Returned : User → Type κ) (Stored : User → Type κ) where
  -- One thing that happens to the store with the authentication enabled: a callback is handled, the
  -- stored user is loaded, each with what the library gives, or the user signs out.
  pub data Step : AuthState → AuthState → Type κ where
    called_back :
        (s : AuthState) (u : User) → Returned u → Step s (handle_callback true (some u) s).0
    refused : (s : AuthState) → Step s (handle_callback true none s).0
    loaded : (s : AuthState) (u : User) → Stored u → Step s (load_user true (some u) s)
    nothing_stored : (s : AuthState) → Step s (load_user true none s)
    left : (s : AuthState) → Step s (logout s)

  pub data Run : AuthState → Type κ where
    begun : Run (start true)
    step : {s t : AuthState} → Run s → Step s t → Run t

  no_user :
      ((u : User) → ¬ Returned u)
      → ((u : User) → Stored u → u.expired ≡ some true)
      → (s : AuthState) → Run s
      → s.user ≡ none
  unfolding start logout handle_callback load_user current_user
  no_user nobody expired s begun = refl
  no_user nobody expired s (step r (called_back t u e)) = absurd (nobody u e)
  no_user nobody expired s (step r (refused t)) = no_user nobody expired t r
  no_user nobody expired s (step r (loaded t u e)) = rw (expired u e) refl
  no_user nobody expired s (step r (nothing_stored t)) = refl
  no_user nobody expired s (step r (left t)) = refl

  -- With the authentication enabled, if no callback returns a user and every stored user is
  -- expired, then the gate never shows what is behind it, on any path and after any run.
  pub shown-Run :
      ((u : User) → ¬ Returned u)
      → ((u : User) → Stored u → u.expired ≡ some true)
      → (pathname : Text) (s : AuthState) → Run s
      → shown true pathname s ≢ children
  unfolding shown
  shown-Run nobody expired pathname s r =
      let e : is_some s.user ≡ false = rw (no_user nobody expired s r) refl in ground (arith, e)

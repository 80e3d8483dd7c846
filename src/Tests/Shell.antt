-- ===== src/Tests/Shell.antt =====
-- The frame of the web client at concrete inputs: the gate, the settings and the cache.
use opentreasury.Prelude.{◌≡◌, ◌≢◌, ◌≤◌, refl, true, false, arith, List, [], ◌∷◌, map, none, some}
use opentreasury.Prelude.Text.{Text, codes, same}
use opentreasury.Auth.{AuthState, User, start, handle_callback}
use opentreasury.Auth.Gate.{unmounted, shown, children, callback_path}
use opentreasury.Auth.Gate.Laws.{effects, handling-effects, refused, Run, begun, step, shown-Run}
use opentreasury.Shell.{Language, start_language, change_language, is_locale, locales}
use opentreasury.Shell.Cache.{
  Cached, health, posted_journal_entry, mark, shows_postings, posted_journal_entry_lem,
}
use opentreasury.Shell.Laws
use opentreasury.Shell.Laws.{Chosen, Themed, start_language-Chosen, start_theme-Themed}

abbrev twice : List Text
twice = callback_path ∷ callback_path ∷ []

handling-effects_example : (effects twice unmounted).handling ≤ 1
handling-effects_example = handling-effects twice

-- A library that gives no user.
abbrev Nobody : User → Type 0
Nobody user = true ≡ false

no_user_returned : (user : User) → ¬ Nobody user
no_user_returned user e = ground (arith, e)

all_expired : (user : User) → Nobody user → user.expired ≡ some true
all_expired user e = absurd (no_user_returned user e)

abbrev refused_state : AuthState
refused_state = (handle_callback true none (start true)).0

refused-Run : Run Nobody Nobody refused_state
refused-Run = step begun (refused (start true))

shown-Run_example : shown true (codes "/journal") refused_state ≢ children
shown-Run_example =
    shown-Run Nobody Nobody no_user_returned all_expired (codes "/journal") refused_state
      refused-Run

abbrev swahili : Language
swahili = change_language (codes "sw") (start_language none)

sw_is_locale : is_locale locales (codes "sw") ≡ true
unfolding is_locale same
sw_is_locale = refl

swahili-Chosen : Chosen swahili
swahili-Chosen = Laws.choose (codes "sw") (Laws.begun none) sw_is_locale

start_language-Chosen_example : start_language swahili.stored ≡ swahili
start_language-Chosen_example = start_language-Chosen swahili swahili-Chosen

abbrev cache : List Cached
cache = record { key = health; stale = true } ∷ []

posted_journal_entry_lem_example : posted_journal_entry cache ≡ map (mark shows_postings) cache
posted_journal_entry_lem_example = posted_journal_entry_lem cache

-- ===== src/Shell/Laws.antt =====
-- The settings survive a restart.
use opentreasury.Prelude.{◌≡◌, refl, true, false, [], ◌∷◌, Option, none, some, arith}
use opentreasury.Prelude.Text.{Text, same}
use opentreasury.Shell.{
  locales, is_locale, Language, initial_language, start_language, change_language, Theme, is_dark,
  ThemeState, set_theme, toggle, start_theme,
}

-- The languages that are reached from some stored text by choices of the menu.
pub data Chosen : Language → Type 0 where
  begun : (stored : Option Text) → Chosen (start_language stored)
  choose :
      {s : Language} (code : Text)
      → Chosen s
      → is_locale locales code ≡ true
      → Chosen (change_language code s)

nil_no_locale : is_locale locales [] ≡ false
unfolding is_locale same
nil_no_locale = refl

initial_choice : (code : Text) → is_locale locales code ≡ true → initial_language (some code) ≡ code
initial_choice [] h = absurd (let e = nil_no_locale in ground (arith, e, h))
initial_choice (c ∷ code) h = rw h refl

-- Whatever was stored at first, and whatever languages of the menu were chosen since: a restart
-- gives the same language, the same stored text and the same language of the document.
pub start_language-Chosen : (s : Language) → Chosen s → start_language s.stored ≡ s
unfolding start_language change_language
start_language-Chosen s (begun stored) = refl
start_language-Chosen s (choose code c h) = rw (initial_choice code h) refl

-- The states of the theme that are reached from some kept theme by choices and by toggles.
pub data Themed : ThemeState → Type 0 where
  begun : (kept : Option Theme) → Themed (start_theme kept)
  chosen : {s : ThemeState} (theme : Theme) → Themed s → Themed (set_theme theme s)
  toggled : {s : ThemeState} → Themed s → Themed (toggle s)

-- After any choices and toggles the document is dark exactly in the dark theme, and a restart with
-- what is kept gives the same state.
pub start_theme-Themed :
    (s : ThemeState) → Themed s → (s.dark_class ≡ is_dark s.theme) × (start_theme s.persisted ≡ s)
unfolding start_theme set_theme toggle
start_theme-Themed s (begun none) = (refl, refl)
start_theme-Themed s (begun (some theme)) = (refl, refl)
start_theme-Themed s (chosen theme t) = (refl, refl)
start_theme-Themed s (toggled t) = (refl, refl)

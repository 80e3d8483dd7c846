-- ===== src/Shell.antt =====
-- apps/web/src/i18n.ts, stores/theme.ts and the frame around the pages: language, theme, health
-- indicator, navigation. The browser's storage and document are parts of the state.
pub mod Laws
pub mod Cache
pub mod Routes
use opentreasury.Prelude.{
  Bool, true, false, List, [], ◌∷◌, ◌++◌, map, Option, none, some, if◌then◌else◌,
}
use opentreasury.Prelude.Text.{Text, codes, same, is_truthy}
use opentreasury.Platform.Decimal.{show}
use opentreasury.Api.Health.{HealthCheckResult, healthy, unhealthy}

abbrev pub locales : List (Text × Text)
locales = (codes "en", codes "English") ∷ (codes "sw", codes "Kiswahili") ∷ []

-- `locales.some((locale) => locale.code === code)`
unfoldable pub is_locale : List (Text × Text) → Text → Bool
is_locale [] code = false
is_locale ((known, label) ∷ others) code = if same known code then true else is_locale others code

-- The language, the stored one, and `<html lang>`.
pub record Language : Type 0 where
  pub language : Text
  pub stored : Option Text
  pub html_lang : Text

abbrev pub initial_language : Option Text → Text
initial_language none = codes "en"
initial_language (some stored) =
    if is_truthy stored
    then (if is_locale locales stored then stored else codes "en")
    else codes "en"

-- The module's start with what is stored.
unfoldable pub start_language : Option Text → Language
unfolding is_locale
start_language stored = record {
  language = initial_language stored;
  stored = stored;
  html_lang = initial_language stored;
}

-- `i18n.changeLanguage(code)` and the listener of `languageChanged`.
unfoldable pub change_language : Text → Language → Language
change_language code state = record { language = code; stored = some code; html_lang = code }

-- The items of LanguageToggle: code, label, and whether it is the language that is set.
unfoldable pub language_items : Language → List (Text × Text × Bool)
language_items state = map (λ locale. (locale.0, locale.1, same state.language locale.0)) locales

pub data Theme : Type 0 where
  dark light : Theme

abbrev pub is_dark : Theme → Bool
is_dark dark = true
is_dark light = false

-- The store, what `persist` keeps of it, and whether the document has the class `dark`.
pub record ThemeState : Type 0 where
  pub theme : Theme
  pub persisted : Option Theme
  pub dark_class : Bool

unfoldable pub apply_theme : Theme → ThemeState → ThemeState
apply_theme theme state = record state { dark_class = is_dark theme }

unfoldable pub set_theme : Theme → ThemeState → ThemeState
unfolding apply_theme
set_theme theme state = record (apply_theme theme state) { theme = theme; persisted = some theme }

unfoldable pub other_theme : Theme → Theme
other_theme dark = light
other_theme light = dark

unfoldable pub toggle : ThemeState → ThemeState
unfolding set_theme other_theme
toggle state = set_theme (other_theme state.theme) state

-- The start of the store with what is kept; `onRehydrateStorage` applies the theme of the state.
unfoldable pub start_theme : Option Theme → ThemeState
start_theme none = record { theme = dark; persisted = none; dark_class = is_dark dark }
start_theme (some theme) = record {
  theme = theme;
  persisted = some theme;
  dark_class = is_dark theme;
}

-- The items of AppSidebar.
abbrev pub items : List (Text × Text)
items =
    (codes "overview", codes "/")
    ∷ (codes "transactions", codes "/transactions")
    ∷ (codes "validation", codes "/validation")
    ∷ (codes "accounts", codes "/accounts")
    ∷ (codes "journal", codes "/journal")
    ∷ (codes "commitments", codes "/commitments")
    ∷ (codes "balances", codes "/balances")
    ∷ (codes "ingestion", codes "/ingestion")
    ∷ (codes "reconciliation", codes "/reconciliation")
    ∷ (codes "insights", codes "/insights")
    ∷ (codes "institutions", codes "/institutions")
    ∷ (codes "audit", codes "/audit")
    ∷ []

-- The navigation on a path: the text and the target of each item, and whether it is the active one.
unfoldable pub app_sidebar : (Text → Text) → Text → List (Text × Text × Bool)
app_sidebar translate pathname =
    map (λ item. (translate (codes "nav." ++ item.0), item.1, same pathname item.1)) items

-- HealthIndicator: its label and its tooltip. `to_time` is `toLocaleTimeString` of a date's text.
unfoldable pub health_label : Option HealthCheckResult → Text
health_label none = codes "Checking API…"
health_label (some (healthy response_time_ms checked_at)) = codes "API healthy"
health_label (some (unhealthy reason checked_at)) = codes "API unreachable"

unfoldable pub health_tooltip : (Text → Text) → Option HealthCheckResult → Text
health_tooltip to_time none = codes "Waiting for first check"
health_tooltip to_time (some (healthy response_time_ms checked_at)) =
    show response_time_ms ++ codes " ms · checked " ++ to_time checked_at
health_tooltip to_time (some (unhealthy reason checked_at)) = reason

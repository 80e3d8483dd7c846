-- ===== src/Pages.antt =====
-- apps/web/src/routes, apps/web/src/components/status-badge.tsx and page-header.tsx: the pages with
-- a table. A page is a function from the query of the URL and from what its hooks give to what it
-- shows; an event of a control is the list of changes of the URL that its handler asks for, and
-- the router, which makes one change of them, is a parameter.
pub mod Transactions
pub mod Audit
pub mod Accounts
pub mod Balances
pub mod Institutions
pub mod Ingestion
pub mod Reconciliation
pub mod Commitments
pub mod Journal
pub mod Insights
pub mod Overview
pub mod Events
pub mod Amounts
pub mod Demo
use opentreasury.Prelude.{ℕ, Bool, List, [], ◌∷◌, map, Option, none, some, if◌then◌else◌}
use opentreasury.Prelude.Int.{ℤ}
use opentreasury.Prelude.Text.{Text, codes, is_truthy, same}
use opentreasury.Platform.Number.{Number, of_ℕ}
use opentreasury.Platform.Double.{Double}
use opentreasury.Platform.Query.{Query, get}
use opentreasury.Api.Institutions.{Institution}
use opentreasury.Api.Request.{ListResult, listed, failed}
use opentreasury.Table.Url.{page_of, page_size_of, filters, set_filter}
use opentreasury.Table.Filters.{
  Choice, AmountFilter, range_display, sync, shows_clear, on_value_change, select_value, choices,
}
use opentreasury.Table.View.{DataTable}

-- What the pages take from the host: `Number(text)` where it gives an integer (`integer_of`, and
-- `read_number` with NaN otherwise), the format of amounts in the locale, `toUpperCase`,
-- `String(x)` of fractions, the year of the clock, and the texts of the translation.
pub record Host : Type 0 where
  pub integer_of : Text → Option ℤ
  pub read_number : Text → Number
  pub to_locale : Number → Text
  pub upper : Text → Text
  pub print : Double → Text
  pub current_year : ℕ
  pub translate : Text → Text

-- A control of the filter bar. A select stands for the filter `key` of the URL.
pub data Control : Type 0 where
  select : (label key : Text) (shown : Text) (options : List Choice) → Control
  dates : (label display : Text) → Control
  amounts : (shown : AmountFilter) (clears : Bool) → Control

-- PageHeader, FilterBar and DataTable of a page.
pub record PageView : Type 0 where
  pub title : Text
  pub description : Text
  pub controls : List Control
  pub table : DataTable

-- `filters.key`
abbrev pub filter_of : Text → Query → Option Text
filter_of key q = get key (filters q)

-- `filters.key ? Number(filters.key) : undefined`
abbrev pub number_of : (Text → Number) → Option Text → Option Number
number_of read_number none = none
number_of read_number (some text) = if is_truthy text then some (read_number text) else none

abbrev pub page_number : Host → Query → Option Number
page_number host q = some (of_ℕ (page_of host.integer_of q))

abbrev pub page_size_number : Host → Query → Option Number
page_size_number host q = some (of_ℕ (page_size_of host.integer_of q))

-- The institutions as the options of a select.
unfoldable pub institution_options : Option (ListResult Institution) → List Choice
institution_options none = []
institution_options (some (failed reason)) = []
institution_options (some (listed institutions pagination)) =
    map (λ institution. record { value = institution.id; label = institution.name }) institutions

abbrev pub same_label : Text → Choice
same_label text = record { value = text; label = text }

abbrev pub select_of : Text → Text → List Choice → Query → Control
select_of label key options q =
    select label key (select_value (filter_of key q)) (choices (codes "All") options)

unfoldable pub dates_of : Text → Query → Control
dates_of label q =
    dates label (range_display (filter_of (codes "dateFrom") q) (filter_of (codes "dateTo") q))

unfoldable pub amounts_of : Host → Query → Control
amounts_of host q =
    let amount_gte = filter_of (codes "amountGte") q in
    let amount_lte = filter_of (codes "amountLte") q in
    amounts (sync host.print amount_gte amount_lte) (shows_clear amount_gte amount_lte)

-- StatusBadge: its tone, and its text.
pub data Tone : Type 0 where
  success info warning destructive muted : Tone

abbrev pub tone_by_status : List (Text × Tone)
tone_by_status =
    (codes "ACTIVE", success)
    ∷ (codes "POSTED", success)
    ∷ (codes "CREATED", success)
    ∷ (codes "VALIDATED", info)
    ∷ (codes "PENDING", warning)
    ∷ (codes "QUARANTINED", destructive)
    ∷ (codes "MATCHED", success)
    ∷ (codes "ATTENTION", warning)
    ∷ (codes "DISCREPANCY", destructive)
    ∷ (codes "REJECTED", destructive)
    ∷ (codes "INACTIVE", muted)
    ∷ (codes "REVERSED", muted)
    ∷ []

unfoldable pub tone_in : List (Text × Tone) → Text → Tone
tone_in [] status = muted
tone_in ((name, tone) ∷ tones) status = if same name status then tone else tone_in tones status

unfoldable pub tone_of : (Text → Text) → Text → Tone
unfolding tone_in
tone_of upper status = tone_in tone_by_status (upper status)

unfoldable pub status_badge : (Text → Text) → Text → List Text
status_badge upper status = upper status ∷ []

-- `onChange` of the controls: the calls of `setFilter`, in order.
unfoldable pub on_choice : Text → Text → List (Query → Query)
on_choice key next = set_filter key (on_value_change next) ∷ []

unfoldable pub on_dates : Option Text × Option Text → List (Query → Query)
on_dates (date_from, date_to) =
    set_filter (codes "dateFrom") date_from ∷ set_filter (codes "dateTo") date_to ∷ []

unfoldable pub on_amounts : Option Text × Option Text → List (Query → Query)
on_amounts (amount_gte, amount_lte) =
    set_filter (codes "amountGte") amount_gte ∷ set_filter (codes "amountLte") amount_lte ∷ []

-- ===== src/Pages/Overview/Laws.antt =====
-- The tiles and the series of the overview.
use opentreasury.Prelude.{◌≡◌, refl, ◌∙◌, Bool, true, false, ◌||◌, List, [], ◌∷◌, arith}
use opentreasury.Prelude.Text.{Text, same, same_iff}
use opentreasury.Platform.Double.{Double}
use opentreasury.Platform.Number.{Number, of_ℕ}
use opentreasury.Api.Journal.{JournalEntry}
use opentreasury.Pages.Overview.{Flows, add_flow, flows_from, insert_flow, sort_flows, flow_series}

-- Whether a date is one of the series, and whether it is the date of an entry.
pub has_date : Text → Flows → Bool
has_date date [] = false
has_date date ((d, amount) ∷ flows) = same d date || has_date date flows

pub has_entry : Text → List JournalEntry → Bool
has_entry date [] = false
has_entry date (entry ∷ entries) = same entry.effective_date date || has_entry date entries

-- Each date of the series stands once.
pub OneForEach : Flows → Type 0
OneForEach [] = true ≡ true
OneForEach ((d, amount) ∷ flows) = (has_date d flows ≡ false) × OneForEach flows

same_comm : (s t : Text) → same s t ≡ same t s
same_comm s t = ground (arith, same_iff s t, same_iff t s)

has_date-add_flow :
    (t date : Text) (amount : Double) (flows : Flows)
    → has_date t (add_flow date amount flows) ≡ (same date t || has_date t flows)
unfolding has_date add_flow
has_date-add_flow t date amount [] = refl
has_date-add_flow t date amount ((d, sum) ∷ flows) =
    ground (arith, has_date-add_flow t date amount flows, same_iff d date)

OneForEach-add_flow :
    (date : Text) (amount : Double) (flows : Flows)
    → OneForEach flows
    → OneForEach (add_flow date amount flows)
unfolding has_date add_flow OneForEach
OneForEach-add_flow date amount [] h = (refl, refl)
OneForEach-add_flow date amount ((d, sum) ∷ flows) (h, distinct) = ground (
  arith,
  h,
  distinct,
  has_date-add_flow d date amount flows,
  same_comm d date,
  OneForEach-add_flow date amount flows distinct,
)

has_date-flows_from :
    (t : Text) (entries : List JournalEntry) (total : Number) (flows : Flows)
    → has_date t (flows_from total flows entries).1 ≡ (has_entry t entries || has_date t flows)
unfolding has_entry flows_from
has_date-flows_from t [] total flows = refl
has_date-flows_from t (entry ∷ entries) total flows =
    has_date-flows_from t entries _ _
    ∙ rw (has_date-add_flow t entry.effective_date _ flows) (ground arith)

OneForEach-flows_from :
    (entries : List JournalEntry) (total : Number) (flows : Flows)
    → OneForEach flows
    → OneForEach (flows_from total flows entries).1
unfolding flows_from
OneForEach-flows_from [] total flows h = h
OneForEach-flows_from (entry ∷ entries) total flows h =
    OneForEach-flows_from entries _ _ (OneForEach-add_flow entry.effective_date _ flows h)

has_date-insert_flow :
    (compare : Text → Text → Bool) (t : Text) (flow : Text × Double) (flows : Flows)
    → has_date t (insert_flow compare flow flows) ≡ (same flow.0 t || has_date t flows)
unfolding has_date insert_flow
has_date-insert_flow compare t flow [] = refl
has_date-insert_flow compare t flow (other ∷ flows) =
    ground (arith, has_date-insert_flow compare t flow flows)

has_date-sort_flows :
    (compare : Text → Text → Bool) (t : Text) (flows : Flows)
    → has_date t (sort_flows compare flows) ≡ has_date t flows
unfolding has_date sort_flows
has_date-sort_flows compare t [] = refl
has_date-sort_flows compare t (flow ∷ flows) =
    has_date-insert_flow compare t flow (sort_flows compare flows)
    ∙ rw (has_date-sort_flows compare t flows) refl

OneForEach-insert_flow :
    (compare : Text → Text → Bool) (flow : Text × Double) (flows : Flows)
    → has_date flow.0 flows ≡ false
    → OneForEach flows
    → OneForEach (insert_flow compare flow flows)
unfolding has_date insert_flow OneForEach
OneForEach-insert_flow compare flow [] h d = (refl, refl)
OneForEach-insert_flow compare flow (other ∷ flows) h d = ground (
  arith,
  has_date-insert_flow compare other.0 flow flows,
  same_comm flow.0 other.0,
  OneForEach-insert_flow compare flow flows,
)

OneForEach-sort_flows :
    (compare : Text → Text → Bool) (flows : Flows)
    → OneForEach flows
    → OneForEach (sort_flows compare flows)
unfolding OneForEach sort_flows
OneForEach-sort_flows compare [] h = refl
OneForEach-sort_flows compare (flow ∷ flows) (h, d) =
    OneForEach-insert_flow compare flow (sort_flows compare flows)
      (has_date-sort_flows compare flow.0 flows ∙ h) (OneForEach-sort_flows compare flows d)

-- The line of the flows has one point for each effective date of an entry, and no other point,
-- whatever the order of the locale.
pub has_date-flow_series :
    (compare : Text → Text → Bool) (entries : List JournalEntry) (date : Text)
    → OneForEach (flow_series compare entries)
      × (has_date date (flow_series compare entries) ≡ has_entry date entries)
unfolding flow_series OneForEach has_date
has_date-flow_series compare entries date = (
  OneForEach-sort_flows compare (flows_from (of_ℕ 0) [] entries).1
      (OneForEach-flows_from entries (of_ℕ 0) [] refl),
  has_date-sort_flows compare date (flows_from (of_ℕ 0) [] entries).1
      ∙ has_date-flows_from date entries (of_ℕ 0) []
      ∙ ground arith,
)

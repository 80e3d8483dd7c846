-- ===== src/Pages/Overview.antt =====
-- apps/web/src/routes/overview.tsx: the tiles and the two series of the charts. `compare` is
-- whether `a.localeCompare(b) <= 0` for two dates.
pub mod Laws
use opentreasury.Prelude.{
  Bool, ◌||◌, List, [], ◌∷◌, ◌++◌, map, filter, Option, none, some, if◌then◌else◌, length, true,
  false, suc,
}
use opentreasury.Prelude.Int.{pos, negsuc}
use opentreasury.Prelude.Text.{Text, codes, same}
use opentreasury.Platform.Decimal.{show, show_ℕ}
use opentreasury.Platform.Double
use opentreasury.Platform.Double.{Double, finite, plus, over, round}
use opentreasury.Platform.Number.{Number, nan, int, add, le, of_ℕ}
use opentreasury.Api.Balances.{Balance}
use opentreasury.Api.Health.{HealthCheckResult, healthy, unhealthy}
use opentreasury.Api.Institutions.{Institution}
use opentreasury.Api.Journal.{JournalEntry}
use opentreasury.Api.Journal.Posting.{debits}
use opentreasury.Api.Request.{ListResult, listed, failed}
use opentreasury.Api.Transactions.Rows.{format_money}
use opentreasury.Table.View.{rows_of, total_of}

-- `accountType === type`
abbrev pub has_type : Text → Balance → Bool
has_type type balance = elim balance.account_type [ none ↦ false | some t ↦ same t type ]

unfoldable pub currency_of : List Balance → List JournalEntry → Text
currency_of (balance ∷ balances) entries = balance.currency
currency_of [] [] = codes "USD"
currency_of [] (entry ∷ entries) = elim entry.lines [
  | [] ↦ codes "USD"
  | line ∷ lines ↦ line.currency
]

unfoldable pub sum_balances : List Balance → Number → Number
sum_balances [] sum = sum
sum_balances (balance ∷ balances) sum = sum_balances balances (add sum balance.balance_minor)

unfoldable pub asset_net_minor : List Balance → Number
unfolding sum_balances
asset_net_minor balances = sum_balances (filter (has_type (codes "ASSET")) balances) (of_ℕ 0)

-- A number of minor units as a double.
abbrev pub to_double : Number → Double
to_double nan = Double.nan
to_double (int (pos n)) = round false n 1
to_double (int (negsuc n)) = round true (suc n) 1

-- `flowByDate.set(date, (flowByDate.get(date) ?? 0) + amount)`: a map is its pairs in the order of
-- their first insertion.
abbrev pub Flows : Type 0
Flows = List (Text × Double)

unfoldable pub add_flow : Text → Double → Flows → Flows
add_flow date amount [] = (date, plus (finite false 0 1) amount) ∷ []
add_flow date amount ((d, sum) ∷ flows) =
    if same d date then (d, plus sum amount) ∷ flows else (d, sum) ∷ add_flow date amount flows

-- The loop over the entries, with the total and the map so far.
unfoldable pub flows_from : Number → Flows → List JournalEntry → Number × Flows
unfolding add_flow
flows_from total flows [] = (total, flows)
flows_from total flows (entry ∷ entries) =
    let debit = debits entry.lines in
    flows_from (add total debit) (add_flow entry.effective_date (over (to_double debit) 100) flows)
      entries

unfoldable pub insert_flow : (Text → Text → Bool) → Text × Double → Flows → Flows
insert_flow compare flow [] = flow ∷ []
insert_flow compare flow (other ∷ flows) =
    if compare flow.0 other.0 then flow ∷ other ∷ flows else other ∷ insert_flow compare flow flows

-- `sort`, which is stable.
unfoldable pub sort_flows : (Text → Text → Bool) → Flows → Flows
unfolding insert_flow
sort_flows compare [] = []
sort_flows compare (flow ∷ flows) = insert_flow compare flow (sort_flows compare flows)

unfoldable pub flow_series : (Text → Text → Bool) → List JournalEntry → Flows
unfolding flows_from sort_flows
flow_series compare entries = sort_flows compare (flows_from (of_ℕ 0) [] entries).1

unfoldable pub stock_series : List Balance → List (Text × Double)
stock_series balances =
    map (λ b. (b.account_code, over (to_double b.balance_minor) 100))
      (filter (λ b. has_type (codes "ASSET") b || has_type (codes "LIABILITY") b) balances)

pub data Tone : Type 0 where
  up down neutral : Tone

pub record StatTile : Type 0 where
  pub label : Text
  pub value : Text
  pub hint : Text
  pub tone : Tone

abbrev pub amount_or_dash {ℓ} : {A : Type ℓ} → List A → Text → Text
amount_or_dash [] amount = codes "—"
amount_or_dash (x ∷ xs) amount = amount

unfoldable pub institutions_tile : Option (ListResult Institution) → Text
institutions_tile none = codes "—"
institutions_tile (some (failed reason)) = codes "—"
institutions_tile (some (listed rows pagination)) = show_ℕ (length rows)

unfoldable pub health_tile : Option HealthCheckResult → StatTile
health_tile (some (healthy response_time_ms checked_at)) = record {
  label = codes "API latency";
  value = show response_time_ms ++ codes " ms";
  hint = codes "healthy";
  tone = up;
}
health_tile _ = record {
  label = codes "API latency";
  value = codes "—";
  hint = codes "unreachable";
  tone = down;
}

unfoldable pub tiles :
    (Number → Text)
    → Option (ListResult JournalEntry)
    → Option (ListResult Balance)
    → Option (ListResult Institution)
    → Option HealthCheckResult
    → List StatTile
unfolding asset_net_minor flows_from institutions_tile health_tile
tiles to_locale entries balances institutions health =
    let entry_rows = rows_of entries in
    let balance_rows = rows_of balances in
    let currency = currency_of balance_rows entry_rows in
    let asset_net = asset_net_minor balance_rows in
    record {
      label = codes "Cash & financial assets";
      value = amount_or_dash balance_rows (format_money to_locale currency asset_net);
      hint = codes "net posted position";
      tone = if le (of_ℕ 0) asset_net then up else down;
    }
    ∷ record {
      label = codes "Posted flow volume";
      value =
          amount_or_dash entry_rows
            (format_money to_locale currency (flows_from (of_ℕ 0) [] entry_rows).0);
      hint = show_ℕ (total_of entries) ++ codes " journal entries";
      tone = neutral;
    }
    ∷ record {
      label = codes "Institutions";
      value = institutions_tile institutions;
      hint = codes "reporting";
      tone = neutral;
    }
    ∷ health_tile health
    ∷ []

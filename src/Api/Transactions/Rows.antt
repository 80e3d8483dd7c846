-- ===== src/Api/Transactions/Rows.antt =====
-- apps/web/src/history.ts and lib/money.ts: the rows of the recent transactions and the amounts of
-- the web client. The format of an amount in the locale of the host is a parameter: `to_locale`
-- takes the amount in minor units and gives it in major ones with two digits.
use opentreasury.Prelude.{◌∷◌, ◌++◌, [], if◌then◌else◌}
use opentreasury.Prelude.Int.{pos_part, neg_part}
use opentreasury.Prelude.Text.{Text, codes}
use opentreasury.Platform.Number.{Number, nan, int, lt, of_ℕ}
use opentreasury.Prelude.{◌+◌}
use opentreasury.Api.Transactions.{TreasuryTransaction}

pub data RecentStatus : Type 0 where
  created blocked : RecentStatus

pub record RecentEvent : Type 0 where
  pub id : Text
  pub institution : Text
  pub date : Text
  pub amount : Text
  pub status : RecentStatus
  pub time : Text

-- `Math.abs(n)`
abbrev pub abs : Number → Number
abs nan = nan
abs (int z) = of_ℕ (pos_part z + neg_part z)

module _ (to_locale : Number → Text) where
  unfoldable pub format_transaction_amount : Text → Number → Text
  format_transaction_amount currency amount_minor = currency ++ b' ' ∷ to_locale amount_minor

  unfoldable pub to_recent_event : TreasuryTransaction → RecentEvent
  unfolding format_transaction_amount
  to_recent_event transaction = record {
    id = transaction.id;
    institution = transaction.institution_id;
    date = transaction.transaction_date;
    amount = format_transaction_amount transaction.currency transaction.amount_minor;
    status = created;
    time = codes "Recorded";
  }

  unfoldable pub format_money : Text → Number → Text
  format_money currency amount_minor =
      let sign = if lt amount_minor (of_ℕ 0) then codes "-" else [] in
      sign ++ currency ++ b' ' ∷ to_locale (abs amount_minor)

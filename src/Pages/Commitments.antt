-- ===== src/Pages/Commitments.antt =====
-- apps/web/src/routes/commitments.tsx: the page.
pub mod Dialog
use opentreasury.Prelude.{List, [], ◌∷◌, ◌++◌, map, Option, if◌then◌else◌, true, false, suc}
use opentreasury.Prelude.Int.{pos, negsuc}
use opentreasury.Prelude.Text.{Text, codes}
use opentreasury.Platform.Number.{Number, nan, int, lt, of_ℕ}
use opentreasury.Platform.Double.{Double, finite, round, times, over, math_round, show_double}
use opentreasury.Platform.Double
use opentreasury.Platform.Query.{Query}
use opentreasury.Api.Commitments.{Commitment, CommitmentListFilter, spell_commitment_status}
use opentreasury.Api.Institutions.{Institution}
use opentreasury.Api.Request.{ListResult}
use opentreasury.Api.Transactions.Rows.{format_money}
use opentreasury.Table.Url.{page_of, page_size_of}
use opentreasury.Table.View.{Column, Fetched, data_table, table_props}
use opentreasury.Pages.{
  Host, PageView, filter_of, number_of, page_number, page_size_number, institution_options,
  same_label, select_of, status_badge,
}
use opentreasury.Pages.Reconciliation.{fiscal_years}

-- `x / y` of two integers, for a positive `y`.
abbrev pub divide : Number → Number → Double
divide (int (pos m)) (int (pos n)) = over (round false m 1) n
divide (int (negsuc m)) (int (pos n)) = over (round true (suc m) 1) n
divide _ _ = Double.nan

-- `percent`
unfoldable pub settled_percent : Commitment → Double
settled_percent commitment =
    if lt (of_ℕ 0) commitment.amount_minor
    then math_round (times (divide commitment.settled_amount_minor commitment.amount_minor) 100)
    else finite false 0 1

unfoldable pub columns : Host → List (Column Commitment)
unfolding settled_percent
columns host =
    record { header = codes "Committed"; cell = λ c. c.committed_date ∷ [] }
    ∷ record { header = codes "Commitment"; cell = λ c. c.id ∷ c.description ∷ [] }
    ∷ record { header = codes "Institution"; cell = λ c. c.institution_id ∷ [] }
    ∷ record { header = codes "Account"; cell = λ c. c.account_code ∷ [] }
    ∷ record {
      header = codes "Committed amount";
      cell = λ c. format_money host.to_locale c.currency c.amount_minor ∷ [];
    }
    ∷ record {
      header = codes "Settled";
      cell = λ c.
          format_money host.to_locale c.currency c.settled_amount_minor
          ∷ (show_double host.print (settled_percent c) ++ codes "%")
          ∷ [];
    }
    ∷ record {
      header = codes "Remaining";
      cell = λ c. format_money host.to_locale c.currency c.remaining_amount_minor ∷ [];
    }
    ∷ record {
      header = codes "Status";
      cell = λ c. status_badge host.upper (spell_commitment_status c.status);
    }
    ∷ []

unfoldable pub api_filter : Host → Query → CommitmentListFilter
api_filter host q = record {
  institution_id = filter_of (codes "institutionId") q;
  fiscal_year = number_of host.read_number (filter_of (codes "fiscalYear") q);
  status = filter_of (codes "status") q;
  page = page_number host q;
  page_size = page_size_number host q;
}

unfoldable pub commitments_page :
    Host
    → Option (ListResult Institution)
    → (CommitmentListFilter → Fetched Commitment)
    → Query
    → PageView
commitments_page host institutions use_commitments q = record {
  title = host.translate (codes "commitments.title");
  description = host.translate (codes "commitments.description");
  controls =
      select_of (host.translate (codes "commitments.institution")) (codes "institutionId")
        (institution_options institutions) q
      ∷ select_of (host.translate (codes "commitments.fiscalYear")) (codes "fiscalYear")
          (map same_label fiscal_years) q
      ∷ select_of (host.translate (codes "commitments.status")) (codes "status")
          (map same_label (codes "OPEN" ∷ codes "SETTLED" ∷ codes "CANCELLED" ∷ [])) q
      ∷ [];
  table = data_table (
      table_props (columns host) (use_commitments (api_filter host q)) (page_of host.integer_of q)
        (page_size_of host.integer_of q) (host.translate (codes "commitments.empty")));
}

-- ===== src/Mobile/Overview.antt =====
-- apps/mobile/src/app/(tabs)/index.tsx: the first screen, and StatusBadge of components/ui.tsx.
use opentreasury.Prelude.{◌||◌, List, [], ◌++◌, map, Option, none, some, if◌then◌else◌}
use opentreasury.Prelude.Text.{Text, codes, same}
use opentreasury.Platform.Number.{of_ℕ}
use opentreasury.Platform.Decimal.{show}
use opentreasury.Verify.{PublicEntry}
use opentreasury.Mobile.{
  Pagination, PublicInstitution, PublicReply, PublicResult, public_journal_entries,
  public_institutions, entry_total, format_money,
}
use opentreasury.Mobile.Explorer.{EntryCard}
use opentreasury.Mobile.Institutions.{PublicQuery}

unfoldable pub entries_request :
    Option Text
    → (Text → PublicReply (List PublicEntry × Pagination))
    → PublicResult (List PublicEntry × Pagination)
entries_request api_url fetch =
    public_journal_entries api_url fetch (record {
      page = none;
      page_size = some (of_ℕ 10);
      institution_id = none;
      fiscal_year = none;
    })

unfoldable pub institutions_request :
    Option Text
    → (Text → PublicReply (List PublicInstitution × Pagination))
    → PublicResult (List PublicInstitution × Pagination)
institutions_request api_url fetch = public_institutions api_url fetch (of_ℕ 1) (of_ℕ 1)

-- `data?.pagination.total ?? "—"`
unfoldable pub total_text {ℓ} : {A : Type ℓ} → Option (List A × Pagination) → Text
total_text none = codes "—"
total_text (some page) = show page.1.total

pub data BadgeColor : Type 0 where
  success warning muted : BadgeColor

unfoldable pub badge_color : Text → BadgeColor
badge_color status =
    if same status (codes "POSTED") || same status (codes "ACTIVE")
    then success
    else if same status (codes "REVERSED") || same status (codes "INACTIVE")
    then warning
    else muted

unfoldable pub overview_card : PublicEntry → EntryCard
overview_card item =
    let (total, currency) = entry_total item in
    record {
      id = item.id;
      status = item.status;
      caption = item.institution_id ++ codes " · " ++ item.effective_date;
      amount = format_money total currency;
    }

unfoldable pub overview_cards : PublicQuery PublicEntry → List EntryCard
unfolding overview_card
overview_cards entries = elim entries.data_ [ none ↦ [] | some page ↦ map overview_card page.0 ]

unfoldable pub empty_text : PublicQuery PublicEntry → Text
empty_text entries =
    if entries.is_loading
    then codes "Loading published entries…"
    else if entries.is_error
    then codes "The public API is unreachable. Pull to retry."
    else codes "No published entries yet."

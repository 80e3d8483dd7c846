-- ===== src/Mobile/Explorer.antt =====
-- apps/mobile/src/app/(tabs)/explorer.tsx: the screen that lists all published entries, page by
-- page. `useInfiniteQuery` is a parameter: the record InfiniteQuery says what it does with the
-- functions that the screen gives it.
pub mod Laws
use opentreasury.Prelude.{
  ℕ, zero, suc, ◌≡◌, Bool, true, false, not, ◌&&◌, List, [], ◌∷◌, ◌++◌, map, Option, none, some,
  if◌then◌else◌,
}
use opentreasury.Prelude.Text.{Text, codes, same, is_truthy}
use opentreasury.Platform.Number.{Number, add, mul, lt, of_ℕ}
use opentreasury.Platform.Decimal.{show}
use opentreasury.Verify.{PublicEntry}
use opentreasury.Mobile.{
  Pagination, PublicInstitution, EntriesFilter, PublicReply, PublicResult, public_journal_entries,
  entry_total, format_money,
}

abbrev pub page_size : Number
page_size = of_ℕ 15

abbrev pub EntryPage : Type 0
EntryPage = List PublicEntry × Pagination

-- The filter of the request for a page.
abbrev pub page_filter : Text → Number → EntriesFilter
page_filter institution_id page = record {
  page = some page;
  page_size = some page_size;
  institution_id = if is_truthy institution_id then some institution_id else none;
  fiscal_year = none;
}

unfoldable pub query_fn :
    Option Text → (Text → PublicReply EntryPage) → Text → Number → PublicResult EntryPage
query_fn api_url fetch institution_id page =
    public_journal_entries api_url fetch (page_filter institution_id page)

-- `getNextPageParam`
unfoldable pub next_page_param : EntryPage → Option Number
next_page_param (entries, pagination) =
    if lt (mul pagination.page pagination.page_size) pagination.total
    then some (add pagination.page (of_ℕ 1))
    else none

-- The library's infinite query, by the pages that it holds after each fetch of a next page, where
-- every page is answered: it starts with the page of the initial parameter, and a fetch appends
-- the page of the next parameter, if there is one.
pub record InfiniteQuery (answer : Number → EntryPage) (initial : Number) : Type 0 where
  pub pages : ℕ → List EntryPage
  pub first : pages 0 ≡ answer initial ∷ []
  pub more :
      (n : ℕ) (before : List EntryPage) (last : EntryPage) (next : Number)
      → pages n ≡ before ++ last ∷ []
      → next_page_param last ≡ some next
      → pages (suc n) ≡ pages n ++ answer next ∷ []
  pub done :
      (n : ℕ) (before : List EntryPage) (last : EntryPage)
      → pages n ≡ before ++ last ∷ []
      → next_page_param last ≡ none
      → pages (suc n) ≡ pages n

-- `pages.flatMap((page) => page.entries)`
unfoldable pub rows : List EntryPage → List PublicEntry
rows [] = []
rows (page ∷ pages) = page.0 ++ rows pages

-- The header: the total of the first page, where there is one.
unfoldable pub header : List EntryPage → Text
header [] = codes " "
header (page ∷ pages) = show page.1.total ++ codes " published entries"

-- `onEndReached`: whether the next page is fetched.
unfoldable pub fetches_next : Bool → Bool → Bool
fetches_next has_next_page is_fetching_next_page = has_next_page && not is_fetching_next_page

unfoldable pub empty_text : Bool → Bool → Text
empty_text is_loading is_error =
    if is_loading
    then codes "Loading…"
    else if is_error
    then codes "The public API is unreachable."
    else codes "No entries match this filter."

-- The chips over the list; the first one is for all institutions.
unfoldable pub chips : Option (List PublicInstitution) → List (Text × Text)
chips none = ([], codes "All") ∷ []
chips (some institutions) = ([], codes "All") ∷ map (λ i. (i.id, i.name)) institutions

-- What a card shows of an entry, and the entry that it leads to.
pub record EntryCard : Type 0 where
  pub id : Text
  pub status : Text
  pub caption : Text
  pub amount : Text

unfoldable pub entry_card : PublicEntry → EntryCard
entry_card item =
    let (total, currency) = entry_total item in
    record {
      id = item.id;
      status = item.status;
      caption =
          item.institution_id
          ++ codes " · FY"
          ++ show item.fiscal_year
          ++ codes " · "
          ++ item.effective_date;
      amount = format_money total currency;
    }

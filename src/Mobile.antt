-- ===== src/Mobile.antt =====
-- apps/mobile/src/lib/format.ts, entries.ts and api.ts: the texts and totals that the mobile client
-- shows, and the requests to the public API.
pub mod Laws
pub mod Money
pub mod Explorer
pub mod EntryScreen
pub mod Institutions
pub mod Overview
use opentreasury.Prelude.{
  ℕ, zero, suc, ◌+◌, ◌/◌, ◌%◌, Bool, true, false, not, ◌&&◌, List, [], ◌∷◌, ◌++◌, Option, none,
  some, if◌then◌else◌, ltb, ◌==◌, length, or_else, leb,
}
use opentreasury.Prelude.Int.{pos, negsuc, pos_part, neg_part}
use opentreasury.Prelude.Text.{Text, codes, same, is_truthy}
use opentreasury.Platform.Number.{Number, nan, int, of_ℕ}
use opentreasury.Platform.Sum.{sum}
use opentreasury.Platform.Decimal.{show, show_ℕ}
use opentreasury.Platform.Query.{Query, append}
use opentreasury.Platform.Percent.{to_string, encode_component}
use opentreasury.Verify.{PublicEntryLine, PublicEntry, ProofResponse}

-- `toLocaleString("en-US")` of an integer: a comma before each three digits that end the text.
unfoldable pub by_threes : Text → Text
by_threes [] = []
by_threes (c ∷ s) =
    let rest = by_threes s in
    if is_truthy s && (length s % 3 == 0) then c ∷ b',' ∷ rest else c ∷ rest

-- `s.padStart(2, "0")`
unfoldable pub pad_two : Text → Text
pad_two s = if ltb (length s) 2 then (if is_truthy s then b'0' ∷ s else codes "00") else s

-- The amount in minor units, by its sign and its absolute value.
unfoldable pub format_money : Number → Text → Text
unfolding by_threes pad_two
format_money nan currency = currency ++ codes " NaN.NaN"
format_money (int z) currency =
    let sign = if ltb 0 (neg_part z) then codes "-" else [] in
    let absolute = pos_part z + neg_part z in
    let major = by_threes (show_ℕ (absolute / 100)) in
    let cents = pad_two (show_ℕ (absolute % 100)) in
    currency ++ b' ' ∷ (sign ++ major ++ b'.' ∷ cents)

-- A value of `buildQuery`'s record: undefined, a string, or a number by its text.
unfoldable pub append_given : Query → List (Text × Option Text) → Query
append_given query [] = query
append_given query ((key, none) ∷ params) = append_given query params
append_given query ((key, some value) ∷ params) =
    append_given (if same value [] then query else append key value query) params

unfoldable pub build_query : List (Text × Option Text) → Text
unfolding append_given
build_query params =
    let encoded = to_string (append_given [] params) in
    if is_truthy encoded then b'?' ∷ encoded else []

-- The loop of `entryTotal`.
unfoldable pub add_debits : Number → Text → List PublicEntryLine → Number × Text
add_debits total currency [] = (total, currency)
add_debits total currency (line ∷ lines) =
    let (next_total, next_currency) =
      if same line.direction (codes "DEBIT")
      then (sum total line.amount_minor, line.currency)
      else (total, currency) in
    add_debits next_total next_currency lines

unfoldable pub entry_total : PublicEntry → Number × Text
unfolding add_debits
entry_total entry =
    let (total, currency) = add_debits (of_ℕ 0) [] entry.lines in
    (total, if is_truthy currency then currency else codes "USD")

-- `replace(/\/$/, "")`: one slash at the end.
unfoldable pub trim_slash : Text → Text
trim_slash [] = []
trim_slash (c ∷ []) = if c == b'/' then [] else c ∷ []
trim_slash (c ∷ d ∷ s) = c ∷ trim_slash (d ∷ s)

unfoldable pub base_url : Option Text → Text
unfolding trim_slash
base_url none = codes "http://localhost:8080"
base_url (some url) = trim_slash url

pub record EntriesFilter : Type 0 where
  pub page : Option Number
  pub page_size : Option Number
  pub institution_id : Option Text
  pub fiscal_year : Option Number

abbrev pub number_text : Option Number → Option Text
number_text none = none
number_text (some n) = some (show n)

abbrev pub paging_params : Number → Number → List (Text × Option Text)
paging_params page page_size =
    (codes "page", some (show page)) ∷ (codes "pageSize", some (show page_size)) ∷ []

unfoldable pub institutions_path : Number → Number → Text
institutions_path page page_size =
    codes "/public/v1/institutions" ++ build_query (paging_params page page_size)

unfoldable pub balances_path : Option Text → Number → Number → Text
balances_path institution_id page page_size =
    codes "/public/v1/balances"
    ++ build_query ((codes "institutionId", institution_id) ∷ paging_params page page_size)

abbrev pub entries_params : EntriesFilter → List (Text × Option Text)
entries_params filter =
    (codes "page", some (show (or_else filter.page (of_ℕ 1))))
    ∷ (codes "pageSize", some (show (or_else filter.page_size (of_ℕ 15))))
    ∷ (codes "institutionId", filter.institution_id)
    ∷ (codes "fiscalYear", number_text filter.fiscal_year)
    ∷ []

unfoldable pub journal_entries_path : EntriesFilter → Text
journal_entries_path filter =
    codes "/public/v1/journal-entries" ++ build_query (entries_params filter)

unfoldable pub entry_proof_path : Text → Text
entry_proof_path id = codes "/public/v1/entries/" ++ encode_component id ++ codes "/proof"

-- What `fetch` gives, and what a request resolves to or is rejected with.
pub data PublicReply {ℓ} (T : Type ℓ) : Type ℓ where
  unreachable : Text → PublicReply T
  malformed : ℕ → Text → PublicReply T
  response : ℕ → T → PublicReply T

pub data PublicResult {ℓ} (T : Type ℓ) : Type ℓ where
  resolved : T → PublicResult T
  rejected : Text → PublicResult T

abbrev pub is_ok_status : ℕ → Bool
is_ok_status status = leb 200 status && leb status 299

abbrev pub refusal : ℕ → Text
refusal status = codes "public API responded " ++ show_ℕ status

unfoldable pub read_public {ℓ} : {T : Type ℓ} → PublicReply T → PublicResult T
read_public (unreachable reason) = rejected reason
read_public (malformed status reason) =
    if is_ok_status status then rejected reason else rejected (refusal status)
read_public (response status value) =
    if is_ok_status status then resolved value else rejected (refusal status)

unfoldable pub get {ℓ} : {T : Type ℓ} → Option Text → (Text → PublicReply T) → Text → PublicResult T
unfolding read_public base_url
get api_url fetch path = read_public (fetch (base_url api_url ++ path))

pub record Pagination : Type 0 where
  pub page : Number
  pub page_size : Number
  pub total : Number

pub record PublicInstitution : Type 0 where
  pub id : Text
  pub name : Text
  pub type : Text
  pub country_code : Text
  pub status : Text

pub record PublicBalance : Type 0 where
  pub institution_id : Text
  pub account_code : Text
  pub account_name : Text
  pub account_type : Text
  pub currency : Text
  pub balance_minor : Number

-- The functions of `publicApi`, by the environment's URL and `fetch`.
unfoldable pub public_institutions :
    Option Text
    → (Text → PublicReply (List PublicInstitution × Pagination))
    → Number
    → Number
    → PublicResult (List PublicInstitution × Pagination)
public_institutions api_url fetch page page_size =
    get api_url fetch (institutions_path page page_size)

unfoldable pub public_balances :
    Option Text
    → (Text → PublicReply (List PublicBalance × Pagination))
    → Option Text
    → Number
    → Number
    → PublicResult (List PublicBalance × Pagination)
public_balances api_url fetch institution_id page page_size =
    get api_url fetch (balances_path institution_id page page_size)

unfoldable pub public_journal_entries :
    Option Text
    → (Text → PublicReply (List PublicEntry × Pagination))
    → EntriesFilter
    → PublicResult (List PublicEntry × Pagination)
public_journal_entries api_url fetch filter = get api_url fetch (journal_entries_path filter)

unfoldable pub public_entry_proof :
    Option Text → (Text → PublicReply ProofResponse) → Text → PublicResult ProofResponse
public_entry_proof api_url fetch id = get api_url fetch (entry_proof_path id)

-- ===== src/Tests/Clients.antt =====
-- The mobile client, the sign-in store and the health check at concrete inputs.
use opentreasury.Prelude.{◌≡◌, refl, true, false, ◌++◌, none, some}
use opentreasury.Prelude.Text.{Text, codes, same}
use opentreasury.Platform.Number.{of_ℕ}
use opentreasury.Platform.Decimal.{show}
use opentreasury.Platform.Percent.Parse.{AllUnits}
use opentreasury.Api.Params.Laws.{present, read_path, utf8_pairs}
use opentreasury.Mobile.{EntriesFilter, journal_entries_path}
use opentreasury.Mobile.Laws.{fields, read_path-public_entries}
use opentreasury.Auth.{User, AuthState, handle_callback}
use opentreasury.Auth.Laws.{IsLocal, handle_callback-IsLocal}
use opentreasury.Tests.Data.{all_units_sound}

abbrev filter : EntriesFilter
filter = record {
  page = some (of_ℕ 2);
  page_size = none;
  institution_id = some (codes "a&b");
  fiscal_year = some (of_ℕ 2026);
}

filter-AllUnits : AllUnits (present (fields filter))
unfolding show same
filter-AllUnits = all_units_sound (present (fields filter)) refl

read_path-public_entries_example :
    read_path (journal_entries_path filter)
    ≡ (codes "/public/v1/journal-entries", utf8_pairs (present (fields filter)))
read_path-public_entries_example = read_path-public_entries filter filter-AllUnits

abbrev user : User
user = record {
  preferred_username = some (codes "amina");
  institution_id = none;
  roles = none;
  access_token = codes "token";
  expired = some false;
  return_to = some (codes "/journal" ++ codes "?page=2");
}

abbrev signed_out : AuthState
signed_out = record { user = none; ready = false }

handle_callback-IsLocal_example :
    (location : Text) × ((handle_callback true (some user) signed_out).1 ≡ some location)
    × IsLocal location
handle_callback-IsLocal_example = handle_callback-IsLocal (some user) signed_out

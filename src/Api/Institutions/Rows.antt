-- ===== src/Api/Institutions/Rows.antt =====
-- apps/web/src/institutions.ts: the rows of the table of institutions, `toInstitutionRow`.
use opentreasury.Prelude.{ℕ, ◌+◌, ◌-◌, ◌&&◌, [], ◌∷◌, map, leb, if◌then◌else◌}
use opentreasury.Prelude.Text.{Text}
use opentreasury.Api.Institutions.{Institution, spell_institution_type, spell_institution_status}

pub record InstitutionRow : Type 0 where
  pub id : Text
  pub name : Text
  pub type : Text
  pub country_code : Text
  pub status : Text

-- `toUpperCase` and `toLowerCase` on ASCII, which the names of the types and the states are.
abbrev pub to_upper : ℕ → ℕ
to_upper c = if leb b'a' c && leb c b'z' then c - 32 else c

abbrev pub to_lower : ℕ → ℕ
to_lower c = if leb b'A' c && leb c b'Z' then c + 32 else c

-- `s.charAt(0).toUpperCase() + s.slice(1).toLowerCase()`
unfoldable pub capitalize : Text → Text
capitalize [] = []
capitalize (c ∷ s) = to_upper c ∷ map to_lower s

unfoldable pub to_institution_row : Institution → InstitutionRow
unfolding capitalize
to_institution_row institution = record {
  id = institution.id;
  name = institution.name;
  type = capitalize (spell_institution_type institution.type);
  country_code = institution.country_code;
  status = capitalize (spell_institution_status institution.status);
}

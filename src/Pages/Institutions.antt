-- ===== src/Pages/Institutions.antt =====
-- apps/web/src/routes/institutions.tsx.
use opentreasury.Prelude.{List, [], ◌∷◌, none}
use opentreasury.Prelude.Text.{codes}
use opentreasury.Platform.Query.{Query}
use opentreasury.Api.Institutions.{
  Institution, InstitutionListFilter, spell_institution_type, spell_institution_status,
}
use opentreasury.Table.Url.{page_of, page_size_of}
use opentreasury.Table.View.{Column, Fetched, data_table, table_props}
use opentreasury.Pages.{
  Host, PageView, filter_of, page_number, page_size_number, select_of, status_badge,
}

unfoldable pub columns : Host → List (Column Institution)
columns host =
    record { header = codes "Institution"; cell = λ i. i.name ∷ i.id ∷ [] }
    ∷ record { header = codes "Type"; cell = λ i. spell_institution_type i.type ∷ [] }
    ∷ record { header = codes "Country"; cell = λ i. i.country_code ∷ [] }
    ∷ record {
      header = codes "Status";
      cell = λ i. status_badge host.upper (spell_institution_status i.status);
    }
    ∷ []

unfoldable pub api_filter : Host → Query → InstitutionListFilter
api_filter host q = record {
  status = filter_of (codes "status") q;
  page = page_number host q;
  page_size = page_size_number host q;
  limit = none;
}

unfoldable pub institutions_page :
    Host → (InstitutionListFilter → Fetched Institution) → Query → PageView
institutions_page host use_institutions_page q = record {
  title = codes "Institutions";
  description = codes "Government entities reporting into the treasury.";
  controls =
      select_of (codes "Status") (codes "status")
        (record { value = codes "ACTIVE"; label = codes "Active" }
          ∷ record { value = codes "INACTIVE"; label = codes "Inactive" }
          ∷ [])
        q
      ∷ [];
  table = data_table (
      table_props (columns host) (use_institutions_page (api_filter host q))
        (page_of host.integer_of q) (page_size_of host.integer_of q)
        (codes "No institutions match this status."));
}

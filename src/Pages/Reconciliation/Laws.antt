-- ===== src/Pages/Reconciliation/Laws.antt =====
-- The sources that the page offers.
use opentreasury.Prelude.{
  ◌≡◌, refl, ◌∙◌, Bool, true, false, ◌||◌, List, [], ◌∷◌, Option, none, some, arith,
}
use opentreasury.Prelude.Text.{Text, same, same_iff}
use opentreasury.Platform.Sort.{insert, sort}
use opentreasury.Api.Reconciliation.{ReconciliationRow}
use opentreasury.Api.Request.{ListResult}
use opentreasury.Pages.Reconciliation.{
  add_source, add_sources, chosen_source, result_rows, source_values,
}

-- Whether a text is one of a list, and whether it is the source of a row.
pub has : Text → List Text → Bool
has t [] = false
has t (s ∷ ss) = same s t || has t ss

pub has_row : Text → List ReconciliationRow → Bool
has_row t [] = false
has_row t (row ∷ rows) = same row.source_system t || has_row t rows

has-insert : (t s : Text) (ss : List Text) → has t (insert s ss) ≡ (same s t || has t ss)
unfolding has insert
has-insert t s [] = refl
has-insert t s (u ∷ us) = ground (arith, has-insert t s us)

has-sort : (t : Text) (ss : List Text) → has t (sort ss) ≡ has t ss
unfolding has sort
has-sort t [] = refl
has-sort t (s ∷ ss) = has-insert t s (sort ss) ∙ rw (has-sort t ss) refl

has-add_source : (t s : Text) (ss : List Text) → has t (add_source s ss) ≡ (same s t || has t ss)
unfolding has add_source
has-add_source t s [] = refl
has-add_source t s (u ∷ us) = ground (arith, has-add_source t s us, same_iff u s)

has-add_sources :
    (t : Text) (rows : List ReconciliationRow) (ss : List Text)
    → has t (add_sources rows ss) ≡ (has_row t rows || has t ss)
unfolding has_row add_sources
has-add_sources t [] ss = refl
has-add_sources t (row ∷ rows) ss =
    has-add_sources t rows (add_source row.source_system ss)
    ∙ rw (has-add_source t row.source_system ss) (ground arith)

-- Each text of the list stands once.
pub IsDistinct : List Text → Type 0
IsDistinct [] = true ≡ true
IsDistinct (s ∷ ss) = (has s ss ≡ false) × IsDistinct ss

same_comm : (s t : Text) → same s t ≡ same t s
same_comm s t = ground (arith, same_iff s t, same_iff t s)

IsDistinct-insert :
    (s : Text) (ss : List Text) → has s ss ≡ false → IsDistinct ss → IsDistinct (insert s ss)
unfolding has insert IsDistinct
IsDistinct-insert s [] h d = (refl, refl)
IsDistinct-insert s (u ∷ us) h d =
    ground (arith, has-insert u s us, same_comm s u, IsDistinct-insert s us)

IsDistinct-sort : (ss : List Text) → IsDistinct ss → IsDistinct (sort ss)
unfolding IsDistinct sort
IsDistinct-sort [] d = refl
IsDistinct-sort (s ∷ ss) (h, d) =
    IsDistinct-insert s (sort ss) (has-sort s ss ∙ h) (IsDistinct-sort ss d)

IsDistinct-add_source : (s : Text) (ss : List Text) → IsDistinct ss → IsDistinct (add_source s ss)
unfolding has add_source IsDistinct
IsDistinct-add_source s [] d = (refl, refl)
IsDistinct-add_source s (u ∷ us) (h, d) =
    ground (arith, h, d, has-add_source u s us, same_comm s u, IsDistinct-add_source s us d)

IsDistinct-add_sources :
    (rows : List ReconciliationRow) (ss : List Text)
    → IsDistinct ss
    → IsDistinct (add_sources rows ss)
unfolding add_sources
IsDistinct-add_sources [] ss d = d
IsDistinct-add_sources (row ∷ rows) ss d =
    IsDistinct-add_sources rows (add_source row.source_system ss)
      (IsDistinct-add_source row.source_system ss d)

IsDistinct-chosen_source : (source : Option Text) → IsDistinct (chosen_source source)
unfolding IsDistinct has
IsDistinct-chosen_source none = refl
IsDistinct-chosen_source (some []) = refl
IsDistinct-chosen_source (some (c ∷ s)) = (refl, refl)

-- The select offers each source once, and it offers exactly the source that is chosen, if there is
-- one, and the sources of the rows of the result: the chosen one stays even where no row has it.
pub has-source_values :
    (source_system : Option Text) (result : Option (ListResult ReconciliationRow)) (t : Text)
    → IsDistinct (source_values source_system result)
      × (has t (source_values source_system result)
          ≡ (has_row t (result_rows result) || has t (chosen_source source_system)))
unfolding source_values
has-source_values source_system result t = (
  IsDistinct-sort (add_sources (result_rows result) (chosen_source source_system)) (
      IsDistinct-add_sources (result_rows result) (chosen_source source_system)
        (IsDistinct-chosen_source source_system)),
  has-sort t (add_sources (result_rows result) (chosen_source source_system))
      ∙ has-add_sources t (result_rows result) (chosen_source source_system),
)

-- ===== src/Verify/Injective.antt =====
-- Entries with clean fields and the same canonical string are the same up to the order of their
-- lines; with separators in the fields they need not be.
use mathlib.Core.List.{Perm}
use mathlib.Core.List.Perm
use opentreasury.Prelude.{
  ◌≡◌, ◌≢◌, refl, sym, ap, ◌∙◌, true, false, List, [], ◌∷◌, ◌++◌, arith, map, append_assoc,
}
use opentreasury.Prelude.Predicates.{All, All-append, All-map, All-weaken}
use opentreasury.Prelude.Split.{split, Lacks, split-join}
use opentreasury.Prelude.Text.{Text, codes, join, is_truthy}
use opentreasury.Platform.Number.{Number, int}
use opentreasury.Platform.Decimal.{show}
use opentreasury.Platform.Sort.{sort, sort-perm, All-sort}
use opentreasury.Verify.{PublicEntryLine, PublicEntry, line_text, canonical_entry_string}
use opentreasury.Verify.Canonical.{
  IsPlain, IsOuter, IsInt, IsClean, IsCleanLine, read_line, read_line-line_text, line_text-IsOuter,
  is_truthy-line_text, read_show, show-IsPlain, read_ℤ,
}

-- What a line's text is: it has no outer separator and is not empty.
abbrev IsLineText : Text → Type 0
IsLineText t = Lacks b'|' t × Lacks b';' t × (is_truthy t ≡ true)

line_text-IsLineText : (line : PublicEntryLine) → IsCleanLine line → IsLineText (line_text line)
line_text-IsLineText line h =
    let outer = line_text-IsOuter line h in
    (
      All-weaken IsOuter (λ c. c ≢ b'|') _ (λ c p. p.0) outer,
      All-weaken IsOuter (λ c. c ≢ b';') _ (λ c p. p.1) outer,
      is_truthy-line_text line,
    )

sorted_texts :
    (lines : List PublicEntryLine)
    → All IsCleanLine lines
    → All IsLineText (sort (map line_text lines))
sorted_texts lines h = All-sort IsLineText (map line_text lines) (
    All-map IsLineText line_text lines
      (All-weaken IsCleanLine (λ l. IsLineText (line_text l)) lines line_text-IsLineText h))

join-Lacks : (ts : List Text) → All IsLineText ts → Lacks b'|' (join b';' ts)
unfolding join
join-Lacks [] h = tt
join-Lacks (t ∷ []) (h, _) = h.0
join-Lacks (t ∷ u ∷ ts) (h, hs) =
    All-append _ t (b';' ∷ join b';' (u ∷ ts)) h.0 (ground arith, join-Lacks (u ∷ ts) hs)

truthy_join : (t : Text) (ts : List Text) → IsLineText t → is_truthy (join b';' (t ∷ ts)) ≡ true
unfolding join
truthy_join [] ts h = cc h.2
truthy_join (c ∷ t) [] h = refl
truthy_join (c ∷ t) (u ∷ ts) h = refl

empty_join : (t : Text) (ts : List Text) → IsLineText t → [] ≢ join b';' (t ∷ ts)
empty_join t ts h e = let f : false ≡ true = ap is_truthy e ∙ truthy_join t ts h in cc

join_injective :
    (ts us : List Text)
    → All IsLineText ts
    → All IsLineText us
    → join b';' ts ≡ join b';' us
    → ts ≡ us
join_injective [] [] h k e = refl
join_injective [] (u ∷ us) h k e = absurd (empty_join u us k.0 (unfold join in e))
join_injective (t ∷ ts) [] h k e = absurd (empty_join t ts h.0 (unfold join in sym e))
join_injective (t ∷ ts) (u ∷ us) h k e =
    sym (split-join b';' t ts (semi_free (t ∷ ts) h))
    ∙ ap (split b';') e
    ∙ split-join b';' u us (semi_free (u ∷ us) k)
  where
    semi_free : (xs : List Text) → All IsLineText xs → All (Lacks b';') xs
    semi_free xs g = All-weaken IsLineText (Lacks b';') xs (λ t p. p.1) g

read_lines :
    (lines : List PublicEntryLine)
    → All IsCleanLine lines
    → map read_line (map line_text lines) ≡ lines
read_lines [] h = refl
read_lines (l ∷ ls) (h, hs) = rw (read_line-line_text l h, read_lines ls hs)

perm_of_sort_eq :
    (xs ys : List PublicEntryLine)
    → All IsCleanLine xs
    → All IsCleanLine ys
    → sort (map line_text xs) ≡ sort (map line_text ys)
    → Perm xs ys
perm_of_sort_eq xs ys h k e =
    let texts : Perm (map line_text xs) (map line_text ys) =
      Perm.trans (Perm.symm (sort-perm (map line_text xs))) (rw e (sort-perm (map line_text ys))) in
    let lines : Perm (map read_line (map line_text xs)) (map read_line (map line_text ys)) =
      Perm.map read_line texts in
    rw (read_lines xs h, read_lines ys k) at lines

-- The parts that the canonical string joins, behind the version.
abbrev entry_parts : PublicEntry → List Text
entry_parts e =
    e.id
    ∷ e.institution_id
    ∷ show e.fiscal_year
    ∷ e.effective_date
    ∷ e.status
    ∷ e.entry_type
    ∷ join b';' (sort (map line_text e.lines))
    ∷ []

canonical-join :
    (e : PublicEntry) → canonical_entry_string e ≡ join b'|' (codes "v1" ∷ entry_parts e)
unfolding canonical_entry_string
canonical-join e = refl

entry_parts-Lacks : (e : PublicEntry) → IsClean e → All (Lacks b'|') (codes "v1" ∷ entry_parts e)
entry_parts-Lacks e h = (
  omega arith,
  (
    h.id,
    (
      h.institution,
      (
        All-weaken IsPlain (λ c. c ≢ b'|') _ (λ c p. p.0) (show-IsPlain e.fiscal_year h.year),
        (h.date, (h.status, (h.kind, (join-Lacks _ (sorted_texts e.lines h.lines), tt)))),
      ),
    ),
  ),
)

same_parts :
    (e f : PublicEntry)
    → IsClean e
    → IsClean f
    → canonical_entry_string e ≡ canonical_entry_string f
    → codes "v1" ∷ entry_parts e ≡ codes "v1" ∷ entry_parts f
same_parts e f h k c =
    sym (split-join b'|' (codes "v1") (entry_parts e) (entry_parts-Lacks e h))
    ∙ ap (split b'|') (sym (canonical-join e) ∙ c ∙ canonical-join f)
    ∙ split-join b'|' (codes "v1") (entry_parts f) (entry_parts-Lacks f k)

-- The same entry, up to the order of its lines.
pub record SameEntry (e f : PublicEntry) : Type 0 where
  pub id : e.id ≡ f.id
  pub institution : e.institution_id ≡ f.institution_id
  pub year : e.fiscal_year ≡ f.fiscal_year
  pub date : e.effective_date ≡ f.effective_date
  pub status : e.status ≡ f.status
  pub kind : e.entry_type ≡ f.entry_type
  pub lines : Perm e.lines f.lines

same_number : (x y : Number) → IsInt x → IsInt y → show x ≡ show y → x ≡ y
same_number x y h k e = sym (read_show x h) ∙ ap (λ t. int (read_ℤ t)) e ∙ read_show y k

-- Two entries whose fields hold no separator, with integer amounts and years, that have the same
-- canonical string are the same entry up to the order of their lines.
pub canonical_entry_string_injective :
    (e f : PublicEntry)
    → IsClean e
    → IsClean f
    → canonical_entry_string e ≡ canonical_entry_string f
    → SameEntry e f
canonical_entry_string_injective e f h k c =
    let parts = same_parts e f h k c in
    record {
      id = cc;
      institution = cc;
      year = same_number e.fiscal_year f.fiscal_year h.year k.year (cc);
      date = cc;
      status = cc;
      kind = cc;
      lines =
          perm_of_sort_eq e.lines f.lines h.lines k.lines
            (join_injective _ _ (sorted_texts e.lines h.lines) (sorted_texts f.lines k.lines) (cc));
    }

-- Where a field may hold the separator the string does not determine the entry: a piece of the
-- institution's id can move into the entry's id, whatever the pieces are.
pub canonical_entry_string_moved :
    (e : PublicEntry) (x y z : Text)
    → canonical_entry_string (record e { id = x ++ b'|' ∷ y; institution_id = z })
      ≡ canonical_entry_string (record e { id = x; institution_id = y ++ b'|' ∷ z })
unfolding canonical_entry_string join
canonical_entry_string_moved e x y z = simp append_assoc

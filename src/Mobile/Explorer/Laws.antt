-- ===== src/Mobile/Explorer/Laws.antt =====
-- Scrolling shows every published entry, each once and in order.
use opentreasury.Prelude.{
  ℕ, zero, suc, ◌+◌, ◌*◌, ◌/◌, ◌≤◌, ◌<◌, ◌≡◌, ◌⊎◌, inl, inr, refl, sym, ap, ap₂, ◌∙◌, List, [], ◌∷◌,
  ◌++◌, none, some, arith, length, take, drop, take_all, take-add, append_assoc, append-nil,
}
use opentreasury.Prelude.Int.{◌*ℤ◌, ◌+ℤ◌}
use opentreasury.Platform.Number.{Number, of_ℕ}
use opentreasury.Verify.{PublicEntry}
use opentreasury.Mobile.Explorer.{EntryPage, next_page_param, InfiniteQuery, rows, page_size}

-- A server that serves the pages of one list of entries.
abbrev pub page_of_list : List PublicEntry → ℕ → EntryPage
page_of_list entries n = (
  take 15 (drop (n * 15) entries),
  record { page = of_ℕ (suc n); page_size = page_size; total = of_ℕ (length entries) },
)

rows-append : (ps qs : List EntryPage) → rows (ps ++ qs) ≡ rows ps ++ rows qs
unfolding rows
rows-append [] qs = refl
rows-append (p ∷ ps) qs =
    ap (λ t. p.0 ++ t) (rows-append ps qs) ∙ sym (append_assoc p.0 (rows ps) (rows qs))

next_page_param-more :
    (entries : List PublicEntry) (n : ℕ)
    → suc n * 15 < length entries
    → next_page_param (page_of_list entries n) ≡ some (of_ℕ (suc (suc n)))
unfolding next_page_param ◌*ℤ◌ ◌+ℤ◌
next_page_param-more entries n h = ground arith

next_page_param-done :
    (entries : List PublicEntry) (n : ℕ)
    → length entries ≤ suc n * 15
    → next_page_param (page_of_list entries n) ≡ none
unfolding next_page_param ◌*ℤ◌ ◌+ℤ◌
next_page_param-done entries n h = ground arith

next_rows :
    (entries : List PublicEntry) (n : ℕ) (pages : List EntryPage)
    → rows pages ≡ take (suc n * 15) entries
    → rows pages ++ rows (page_of_list entries (suc n) ∷ []) ≡ take (suc (suc n) * 15) entries
unfolding rows
next_rows entries n pages h =
    ap₂ (λ s t. s ++ t) h (append-nil (take 15 (drop (suc n * 15) entries)))
    ∙ sym (take-add (suc n * 15) 15 entries)
    ∙ ap (λ k. take k entries) (let e : suc n * 15 + 15 ≡ suc (suc n) * 15 = omega arith in e)

first_rows :
    (entries : List PublicEntry) → rows (page_of_list entries 0 ∷ []) ≡ take (1 * 15) entries
unfolding rows
first_rows entries = append-nil (take 15 entries)

module _ (entries : List PublicEntry) (answer : Number → EntryPage)
    (served : (n : ℕ) → answer (of_ℕ (suc n)) ≡ page_of_list entries n)
    (query : InfiniteQuery answer (of_ℕ 1)) where
  -- The last page that is held, which the next parameter is taken from.
  record Held (n : ℕ) : Type 0 where
    before : List EntryPage
    index : ℕ
    last : query.pages n ≡ before ++ page_of_list entries index ∷ []
    shown : rows (query.pages n) ≡ take (suc n * 15) entries
    place : (index ≡ n) ⊎ (length entries ≤ suc index * 15)
    below : index ≤ n

  advance : (n : ℕ) (h : Held n) → suc h.index * 15 < length entries → h.index ≡ n → Held (suc n)
  advance n h more e =
      let grown : query.pages (suc n) ≡ query.pages n ++ page_of_list entries (suc n) ∷ [] =
        query.more n h.before (page_of_list entries h.index) (of_ℕ (suc (suc h.index))) h.last
          (next_page_param-more entries h.index more)
        ∙ ap (λ p. query.pages n ++ p ∷ [])
            (served (suc h.index) ∙ ap (λ k. page_of_list entries (suc k)) e) in
      record {
        before = query.pages n;
        index = suc n;
        last = grown;
        shown =
            ap rows grown
            ∙ rows-append (query.pages n) (page_of_list entries (suc n) ∷ [])
            ∙ next_rows entries n (query.pages n) h.shown;
        place = inl refl;
        below = omega arith;
      }

  stay : (n : ℕ) (h : Held n) → length entries ≤ suc h.index * 15 → Held (suc n)
  stay n h all =
      let same_pages : query.pages (suc n) ≡ query.pages n =
        query.done n h.before (page_of_list entries h.index) h.last
          (next_page_param-done entries h.index all) in
      record {
        before = h.before;
        index = h.index;
        last = same_pages ∙ h.last;
        shown =
            ap rows same_pages
            ∙ h.shown
            ∙ take_all (suc n * 15) entries (omega (arith, h.below))
            ∙ sym (take_all (suc (suc n) * 15) entries (omega (arith, h.below)));
        place = inr all;
        below = omega (arith, h.below);
      }

  start : Held 0
  start =
      let first : query.pages 0 ≡ page_of_list entries 0 ∷ [] =
        query.first ∙ ap (λ p. p ∷ []) (served 0) in
      record {
        before = [];
        index = 0;
        last = first;
        shown = ap rows first ∙ first_rows entries;
        place = inl refl;
        below = omega arith;
      }

  held : (n : ℕ) → Held n
  held zero = start
  held (suc n) =
      let h = held n in
      elim (more_or_all h.index) [
        | inr all ↦ stay n h all
        | inl more ↦ elim h.place [ inl here ↦ advance n h more here | inr all ↦ stay n h all ]
      ]
    where
      more_or_all : (k : ℕ) → (suc k * 15 < length entries) ⊎ (length entries ≤ suc k * 15)
      more_or_all k = omega arith

  -- Where the server serves the pages of one list, the screen shows after every count of further
  -- fetches the first entries of that list, fifteen for each page, in order.
  pub rows-pages : (n : ℕ) → rows (query.pages n) ≡ take (suc n * 15) entries
  rows-pages n = (held n).shown

  -- Where the server serves the pages of one list, scrolling shows all of it: after one further
  -- fetch for each full page of fifteen, and after any fetches beyond, the rows are the whole list.
  pub rows-all : (extra : ℕ) → rows (query.pages (length entries / 15 + extra)) ≡ entries
  rows-all extra =
      rows-pages (length entries / 15 + extra)
      ∙ take_all (suc (length entries / 15 + extra) * 15) entries (omega arith)

  -- Where the server serves the pages of one list, scrolling ends: once the full pages of fifteen
  -- are fetched, a further fetch changes nothing.
  pub pages_end :
      (extra : ℕ)
      → query.pages (suc (length entries / 15 + extra)) ≡ query.pages (length entries / 15 + extra)
  pages_end extra =
      let n = length entries / 15 + extra in
      let h = held n in
      let all : length entries ≤ suc h.index * 15 = elim h.place [
        | inl here ↦ omega (arith, here)
        | inr all ↦ all
      ] in
      query.done n h.before (page_of_list entries h.index) h.last
        (next_page_param-done entries h.index all)

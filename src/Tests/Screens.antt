-- ===== src/Tests/Screens.antt =====
-- The screens of the mobile client at concrete inputs.
use opentreasury.Prelude.{
  ℕ, zero, suc, ◌+◌, ◌/◌, ◌≡◌, refl, sym, ap, ◌∙◌, List, [], ◌∷◌, ◌++◌, Option, none, some, length,
  or_else,
}
use opentreasury.Prelude.Int.{pos, ◌*ℤ◌, ◌+ℤ◌}
use opentreasury.Prelude.Text.{Text, codes}
use opentreasury.Platform.Number.{Number, nan, int, of_ℕ}
use opentreasury.Verify.{PublicEntry, ProofResponse, verify_proof}
use opentreasury.Mobile.EntryScreen.{
  EntryScreen, opened, begin, finish, entry_screen, proof_view, verdict_of,
}
use opentreasury.Mobile.EntryScreen.Laws.{answered, verdict_in}
use opentreasury.Mobile.Explorer.{EntryPage, InfiniteQuery, next_page_param, rows}
use opentreasury.Mobile.Explorer.Laws.{page_of_list, rows-all, pages_end}

abbrev entry : PublicEntry
entry = record {
  id = codes "je-2026-0001";
  institution_id = codes "minfin";
  fiscal_year = of_ℕ 2026;
  effective_date = codes "2026-07-01";
  status = codes "POSTED";
  entry_type = codes "STANDARD";
  lines = [];
}

-- Seventeen entries, which take two pages.
abbrev copies : ℕ → List PublicEntry
copies zero = []
copies (suc n) = entry ∷ copies n

abbrev answer : Number → EntryPage
answer (int (pos (suc n))) = page_of_list (copies 17) n
answer _ = page_of_list (copies 17) 0

abbrev pages : ℕ → List EntryPage
pages zero = page_of_list (copies 17) 0 ∷ []
pages (suc n) = page_of_list (copies 17) 0 ∷ page_of_list (copies 17) 1 ∷ []

last_of : EntryPage → List EntryPage → EntryPage
last_of found [] = found
last_of found (page ∷ others) = last_of page others

last_of-append :
    (found last : EntryPage) (before : List EntryPage) → last_of found (before ++ last ∷ []) ≡ last
unfolding last_of
last_of-append found last [] = refl
last_of-append found last (page ∷ before) = last_of-append page last before

first_next : next_page_param (page_of_list (copies 17) 0) ≡ some (of_ℕ 2)
unfolding next_page_param ◌*ℤ◌ ◌+ℤ◌
first_next = refl

second_next : next_page_param (page_of_list (copies 17) 1) ≡ none
unfolding next_page_param ◌*ℤ◌ ◌+ℤ◌
second_next = refl

last_page :
    (n : ℕ) (before : List EntryPage) (last : EntryPage)
    → pages n ≡ before ++ last ∷ []
    → last ≡ last_of (page_of_list (copies 17) 0) (pages n)
last_page n before last e =
    sym (last_of-append (page_of_list (copies 17) 0) last before)
    ∙ ap (last_of (page_of_list (copies 17) 0)) (sym e)

asked :
    (n : ℕ) (before : List EntryPage) (last : EntryPage) (asked_next : Option Number)
    → pages n ≡ before ++ last ∷ []
    → next_page_param last ≡ asked_next
    → next_page_param (last_of (page_of_list (copies 17) 0) (pages n)) ≡ asked_next
asked n before last asked_next e h = ap next_page_param (sym (last_page n before last e)) ∙ h

more_pages :
    (n : ℕ) (before : List EntryPage) (last : EntryPage) (number : Number)
    → pages n ≡ before ++ last ∷ []
    → next_page_param last ≡ some number
    → pages (suc n) ≡ pages n ++ answer number ∷ []
unfolding last_of
more_pages zero before last number e h =
    let two : some (of_ℕ 2) ≡ some number = sym first_next ∙ asked zero before last _ e h in
    ap (λ k. page_of_list (copies 17) 0 ∷ answer (or_else k nan) ∷ []) two
more_pages (suc n) before last number e h =
    let stop : none ≡ some number = sym second_next ∙ asked (suc n) before last _ e h in cc

same_pages :
    (n : ℕ) (before : List EntryPage) (last : EntryPage)
    → pages n ≡ before ++ last ∷ []
    → next_page_param last ≡ none
    → pages (suc n) ≡ pages n
unfolding last_of
same_pages zero before last e h =
    let go : some (of_ℕ 2) ≡ none = sym first_next ∙ asked zero before last _ e h in cc
same_pages (suc n) before last e h = refl

abbrev scrolled : InfiniteQuery answer (of_ℕ 1)
scrolled = record { pages = pages; first = refl; more = more_pages; done = same_pages }

rows-all_example : rows (scrolled.pages (length (copies 17) / 15 + 1)) ≡ copies 17
rows-all_example = rows-all (copies 17) answer (λ n. refl) scrolled 1

pages_end_example :
    scrolled.pages (suc (length (copies 17) / 15 + 2))
    ≡ scrolled.pages (length (copies 17) / 15 + 2)
pages_end_example = pages_end (copies 17) answer (λ n. refl) scrolled 2

abbrev checksum : Text → Text
checksum text = text

abbrev proof : ProofResponse
proof = record {
  entry = entry;
  anchor = record {
    id = codes "anchor-1";
    merkle_root = codes "root";
    backend = codes "ledger";
    backend_ref = codes "tx-1";
    anchored_at = codes "2026-07-02T00:00:00Z";
  };
  leaf_hash = codes "leaf";
  proof = [];
}

abbrev checked : EntryScreen
checked = finish checksum (some proof) (begin (some proof) opened)

shown :
    verdict_in (entry_screen (answered proof) checked)
    ≡ some (verdict_of (verify_proof checksum proof))
unfolding entry_screen finish proof_view
shown = refl

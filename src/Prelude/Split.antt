-- ===== src/Prelude/Split.antt =====
-- Cutting a text at a separator, and joining parts with one.
use opentreasury.Prelude.{
  ℕ, ◌≡◌, ◌≢◌, refl, ap, ◌∙◌, List, [], ◌∷◌, ◌++◌, arith, ◌==◌, if◌then◌else◌,
}
use opentreasury.Prelude.Predicates.{All}
use opentreasury.Prelude.Text.{Text, join}

add_to_head : ℕ → List Text → List Text
add_to_head c [] = (c ∷ []) ∷ []
add_to_head c (p ∷ ps) = (c ∷ p) ∷ ps

unfoldable pub split : ℕ → Text → List Text
unfolding add_to_head
split sep [] = [] ∷ []
split sep (c ∷ s) = let parts = split sep s in if c == sep then [] ∷ parts else add_to_head c parts

-- What stands before the first `sep`, and behind it.
unfoldable pub cut : ℕ → Text → Text × Text
cut sep [] = ([], [])
cut sep (c ∷ s) =
    let (before, after) = cut sep s in if c == sep then ([], s) else (c ∷ before, after)

abbrev pub Lacks : ℕ → Text → Type 0
Lacks sep = All (λ c. c ≢ sep)

pub split-Lacks : (sep : ℕ) (p : Text) → Lacks sep p → split sep p ≡ p ∷ []
unfolding split add_to_head
split-Lacks sep [] h = refl
split-Lacks sep (c ∷ p) (h, hs) = ground (arith, split-Lacks sep p hs)

pub split-append :
    (sep : ℕ) (p rest : Text) → Lacks sep p → split sep (p ++ sep ∷ rest) ≡ p ∷ split sep rest
unfolding split add_to_head
split-append sep [] rest h = ground arith
split-append sep (c ∷ p) rest (h, hs) = ground (arith, split-append sep p rest hs)

pub cut-append : (sep : ℕ) (p rest : Text) → Lacks sep p → cut sep (p ++ sep ∷ rest) ≡ (p, rest)
unfolding cut
cut-append sep [] rest h = ground arith
cut-append sep (c ∷ p) rest (h, hs) = ground (arith, cut-append sep p rest hs)

pub cut-Lacks : (sep : ℕ) (p : Text) → Lacks sep p → cut sep p ≡ (p, [])
unfolding cut
cut-Lacks sep [] h = refl
cut-Lacks sep (c ∷ p) (h, hs) = ground (arith, cut-Lacks sep p hs)

-- Cutting a joined text gives the parts back, if there is one and none holds the separator.
pub split-join :
    (sep : ℕ) (p : Text) (ps : List Text)
    → All (Lacks sep) (p ∷ ps)
    → split sep (join sep (p ∷ ps)) ≡ p ∷ ps
unfolding join
split-join sep p [] (h, _) = split-Lacks sep p h
split-join sep p (q ∷ ps) (h, hs) =
    split-append sep p (join sep (q ∷ ps)) h ∙ ap (λ t. p ∷ t) (split-join sep q ps hs)

-- ===== src/Verify/Tree.antt =====
-- A Merkle tree as the specification of an anchored batch, and that every proof of it verifies.
use opentreasury.Prelude.{◌≡◌, refl, sym, ◌∙◌, true, false, List, [], ◌∷◌, ◌++◌}
use opentreasury.Prelude.Text.{Text}
use opentreasury.Verify.{ProofStep, ProofResponse, canonical_entry_string, walk, verify_proof}
use opentreasury.Verify.Binding.{verify_proof_iff}

pub data Tree : Type 0 where
  leaf : Text → Tree
  node : Tree → Tree → Tree

module _ (sha : Text → Text) where
  unfoldable pub root : Tree → Text
  root (leaf h) = h
  root (node l r) = sha (root l ++ root r)

  -- `Inclusion t h p`: the leaf `h` stands in `t`, and `p` lists the siblings on the way up.
  pub data Inclusion : Tree → Text → List ProofStep → Type 0 where
    here : (h : Text) → Inclusion (leaf h) h []
    in_left :
        {l r : Tree} {h : Text} {p q : List ProofStep}
        → Inclusion l h p
        → q ≡ p ++ record { hash = root r; left = false } ∷ []
        → Inclusion (node l r) h q
    in_right :
        {l r : Tree} {h : Text} {p q : List ProofStep}
        → Inclusion r h p
        → q ≡ p ++ record { hash = root l; left = true } ∷ []
        → Inclusion (node l r) h q

  walk-append : (p q : List ProofStep) (h : Text) → walk sha (p ++ q) h ≡ walk sha q (walk sha p h)
  unfolding walk
  walk-append [] q h = refl
  walk-append (s ∷ p) q h = walk-append p q _

  walk-Inclusion :
      {t : Tree} {h : Text} {p : List ProofStep} → Inclusion t h p → walk sha p h ≡ root t
  unfolding root walk
  walk-Inclusion (here h) = refl
  walk-Inclusion (in_left {l} {r} {h} {p} i e) = rw (e, walk-append p _ h, walk-Inclusion i)
  walk-Inclusion (in_right {l} {r} {h} {p} i e) = rw (e, walk-append p _ h, walk-Inclusion i)

-- A response whose leaf is the hash of its entry, with an inclusion proof of that leaf in a tree
-- and the root of the tree as its anchor, is verified.
pub verify_proof-Inclusion :
    (sha : Text → Text) (t : Tree) (r : ProofResponse)
    → r.leaf_hash ≡ sha (canonical_entry_string r.entry)
    → r.anchor.merkle_root ≡ root sha t
    → Inclusion sha t r.leaf_hash r.proof
    → (verify_proof sha r).verified ≡ true
verify_proof-Inclusion sha t r hashed anchored i =
    (verify_proof_iff sha r).1 (sym hashed, walk-Inclusion sha i ∙ sym anchored)

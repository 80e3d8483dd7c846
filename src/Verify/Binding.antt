-- ===== src/Verify/Binding.antt =====
-- What a verified response binds: for one anchored root and one path through the tree, there is
-- one entry, or a collision of the hash function is at hand.
use opentreasury.Prelude.{
  ℕ, ◌≡◌, ◌≢◌, ◌↔◌, ◌⊎◌, inl, inr, refl, sym, ap, ◌∙◌, Bool-cases, true, false, List, [], ◌∷◌, ◌++◌,
  arith, length, length-append, if◌then◌else◌, ◌&&◌,
}
use opentreasury.Prelude.Text.{Text, same, same_iff}
use opentreasury.Verify.{ProofStep, ProofResponse, canonical_entry_string, walk, verify_proof}
use opentreasury.Verify.Canonical.{IsClean}
use opentreasury.Verify.Injective.{SameEntry, canonical_entry_string_injective}

-- Two different texts with one hash.
abbrev pub Collision : (Text → Text) → Type 0
Collision sha = (a b : Text) × (a ≢ b) × (sha a ≡ sha b)

-- The sides of the siblings agree, step by step; the hashes of the siblings need not.
abbrev pub SamePath : List ProofStep → List ProofStep → Type 0
SamePath [] [] = Unit
SamePath (s ∷ p) (t ∷ q) = (s.left ≡ t.left) × SamePath p q
SamePath _ _ = ⊥

append_cancel_left : (s t u : Text) → s ++ t ≡ s ++ u → t ≡ u
append_cancel_left [] t u e = e
append_cancel_left (c ∷ s) t u e = append_cancel_left s t u (cc)

-- Texts that end in parts of one length end in the same part, if they are equal.
append_inj_right : (s t u v : Text) → length t ≡ length v → s ++ t ≡ u ++ v → t ≡ v
append_inj_right [] t [] v h e = e
append_inj_right [] t (c ∷ u) v h e = absurd (omega (arith, h, ap length e, length-append u v))
append_inj_right (c ∷ s) t [] v h e = absurd (omega (arith, h, ap length e, length-append s t))
append_inj_right (c ∷ s) t (d ∷ u) v h e = append_inj_right s t u v h (cc)

append_inj_left : (s t u v : Text) → length s ≡ length u → s ++ t ≡ u ++ v → s ≡ u
append_inj_left [] t [] v h e = refl
append_inj_left [] t (c ∷ u) v h e = absurd (omega arith)
append_inj_left (c ∷ s) t [] v h e = absurd (omega arith)
append_inj_left (c ∷ s) t (d ∷ u) v h e = cc (append_inj_left s t u v (omega arith) (cc))

module _ (sha : Text → Text) where
  -- Equal hashes come from equal texts, or from a collision.
  preimage : (a b : Text) → sha a ≡ sha b → (a ≡ b) ⊎ Collision sha
  preimage a b e = elim (Bool-cases (same a b)) [
    | inl h ↦ inl ((same_iff a b).0 h)
    | inr h ↦ inr (a, b, differ h, e)
  ]
    where
      differ : same a b ≡ false → a ≢ b
      differ h k = let t : same a b ≡ true = (same_iff a b).1 k in cc

  module _ (size : ℕ) (sized : (t : Text) → length (sha t) ≡ size) where
    walk_binding :
        (p q : List ProofStep) (a b : Text)
        → SamePath p q
        → length a ≡ size
        → length b ≡ size
        → walk sha p a ≡ walk sha q b
        → (a ≡ b) ⊎ Collision sha
    unfolding walk
    walk_binding [] [] a b s ha hb e = inl e
    walk_binding [] (t ∷ q) a b s ha hb e = absurd s
    walk_binding (t ∷ p) [] a b s ha hb e = absurd s
    walk_binding (t ∷ p) (u ∷ q) a b (side, s) ha hb e =
        elim (walk_binding p q _ _ s (sized _) (sized _) e) [
          | inr c ↦ inr c
          | inl h ↦ elim (preimage _ _ h) [
            | inr c ↦ inr c
            | inl k ↦ inl (cancel t u a b side (ha ∙ sym hb) k)
          ]
        ]
      where
        cancel :
            (t u : ProofStep) (a b : Text)
            → t.left ≡ u.left
            → length a ≡ length b
            → (if t.left then t.hash ++ a else a ++ t.hash)
              ≡ (if u.left then u.hash ++ b else b ++ u.hash)
            → a ≡ b
        cancel t u a b side h k = elim (Bool-cases t.left) [
          | inl left ↦ append_inj_right t.hash a u.hash b h (rw (left, sym side ∙ left) at k)
          | inr right ↦ append_inj_left a t.hash b u.hash h (rw (right, sym side ∙ right) at k)
        ]

-- A response is verified exactly where its leaf hash is the hash of its entry's canonical string
-- and the walk from it along the proof reaches the anchored root.
pub verify_proof_iff :
    (sha : Text → Text) (r : ProofResponse)
    → ((verify_proof sha r).verified ≡ true) ↔ (
        (sha (canonical_entry_string r.entry) ≡ r.leaf_hash)
        × (walk sha r.proof r.leaf_hash ≡ r.anchor.merkle_root))
unfolding verify_proof
verify_proof_iff sha r = (to, from)
  where
    leaf : Text
    leaf = sha (canonical_entry_string r.entry)

    to :
        (same leaf r.leaf_hash && same (walk sha r.proof leaf) r.anchor.merkle_root) ≡ true
        → (leaf ≡ r.leaf_hash) × (walk sha r.proof r.leaf_hash ≡ r.anchor.merkle_root)
    to h =
        let e : leaf ≡ r.leaf_hash = (same_iff _ _).0 (ground arith) in
        let w : walk sha r.proof leaf ≡ r.anchor.merkle_root = (same_iff _ _).0 (ground arith) in
        (e, ap (walk sha r.proof) (sym e) ∙ w)

    from :
        (leaf ≡ r.leaf_hash) × (walk sha r.proof r.leaf_hash ≡ r.anchor.merkle_root)
        → (same leaf r.leaf_hash && same (walk sha r.proof leaf) r.anchor.merkle_root) ≡ true
    from (e, w) =
        let h : same leaf r.leaf_hash ≡ true = (same_iff _ _).1 e in
        let k : same (walk sha r.proof leaf) r.anchor.merkle_root ≡ true =
          (same_iff _ _).1 (ap (walk sha r.proof) e ∙ w) in
        ground arith

-- Two verified responses with one anchored root, whose proofs take the same path, are about the
-- same canonical string, or a collision of the hash function is at hand.
verify_binding :
    (sha : Text → Text) (size : ℕ)
    → ((t : Text) → length (sha t) ≡ size)
    → (r s : ProofResponse) → (verify_proof sha r).verified ≡ true
    → (verify_proof sha s).verified ≡ true
    → r.anchor.merkle_root ≡ s.anchor.merkle_root
    → SamePath r.proof s.proof
    → (canonical_entry_string r.entry ≡ canonical_entry_string s.entry) ⊎ Collision sha
verify_binding sha size sized r s vr vs root path =
    let (leaf_r, walk_r) = (verify_proof_iff sha r).0 vr in
    let (leaf_s, walk_s) = (verify_proof_iff sha s).0 vs in
    let start : length r.leaf_hash ≡ size = ap length (sym leaf_r) ∙ sized _ in
    let start' : length s.leaf_hash ≡ size = ap length (sym leaf_s) ∙ sized _ in
    elim (walk_binding sha size sized r.proof s.proof _ _ path start start'
      (walk_r ∙ root ∙ sym walk_s)) [
        | inr c ↦ inr c
        | inl e ↦ preimage sha _ _ (leaf_r ∙ e ∙ sym leaf_s)
      ]

-- For a hash of one length: two verified responses with one anchored root, whose proofs take the
-- same path and whose entries are clean, show the same entry up to the order of its lines, or a
-- collision of the hash function is at hand.
pub verify_proof-SameEntry :
    (sha : Text → Text) (size : ℕ)
    → ((t : Text) → length (sha t) ≡ size)
    → (r s : ProofResponse) → IsClean r.entry
    → IsClean s.entry
    → (verify_proof sha r).verified ≡ true
    → (verify_proof sha s).verified ≡ true
    → r.anchor.merkle_root ≡ s.anchor.merkle_root
    → SamePath r.proof s.proof
    → SameEntry r.entry s.entry ⊎ Collision sha
verify_proof-SameEntry sha size sized r s cr cs vr vs root path =
    elim (verify_binding sha size sized r s vr vs root path) [
      | inl e ↦ inl (canonical_entry_string_injective r.entry s.entry cr cs e)
      | inr c ↦ inr c
    ]

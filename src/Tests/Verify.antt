-- ===== src/Tests/Verify.antt =====
-- Proof verification at a concrete response.
use mathlib.Core.List.{Perm, Memᴰ}
use mathlib.Core.List.Perm
use opentreasury.Prelude.{
  ℕ, ◌+◌, ◌%◌, ◌≡◌, ◌⊎◌, refl, true, false, List, [], ◌∷◌, ◌++◌, none, length, arith,
}
use opentreasury.Prelude.Int.{pos}
use opentreasury.Prelude.Predicates.{All}
use opentreasury.Prelude.Text.{Text, codes}
use opentreasury.Platform.Number.{of_ℕ}
use opentreasury.Api.Request.{Env, Request}
use opentreasury.Api.Journal.{JournalEntry, posted, standard, debit, credit}
use opentreasury.Api.Proofs.{ProofEntry, EntryProof, ProofReply, sha256_hex, unreachable, ok}
use opentreasury.Verify.{
  PublicEntryLine, PublicEntry, ProofResponse, canonical_entry_string, verify_proof,
}
use opentreasury.Verify.Canonical.{IsCleanLine, IsClean, canonical_entry_string-perm}
use opentreasury.Verify.Injective.{
  SameEntry, canonical_entry_string_injective, canonical_entry_string_moved,
}
use opentreasury.Verify.Binding.{Collision, verify_proof-SameEntry}
use opentreasury.Verify.Tree.{Tree, leaf, node, root, Inclusion, verify_proof-Inclusion}
use opentreasury.Verify.Web.{
  check, verify, verified, unanchored, demo_hash, is_verified, public_response, check-verify_proof,
  verify_demo,
}

-- A stand-in for the hash function: a checksum of one code unit.
abbrev sum : Text → ℕ
sum [] = 7
sum (c ∷ s) = c + sum s

abbrev checksum : Text → Text
checksum t = sum t % 65521 ∷ []

checksum_sized : (t : Text) → length (checksum t) ≡ 1
checksum_sized t = refl

abbrev debit_line : PublicEntryLine
debit_line = record {
  account_code = codes "6202";
  direction = codes "DEBIT";
  amount_minor = of_ℕ 125000;
  currency = codes "KES";
}

abbrev credit_line : PublicEntryLine
credit_line = record {
  account_code = codes "114";
  direction = codes "CREDIT";
  amount_minor = of_ℕ 125000;
  currency = codes "KES";
}

abbrev entry_with : List PublicEntryLine → PublicEntry
entry_with lines = record {
  id = codes "je-1";
  institution_id = codes "minfin";
  fiscal_year = of_ℕ 2026;
  effective_date = codes "2026-06-28";
  status = codes "POSTED";
  entry_type = codes "STANDARD";
  lines = lines;
}

abbrev entry : PublicEntry
entry = entry_with (debit_line ∷ credit_line ∷ [])

-- The same entry with its lines in another order.
abbrev reordered : PublicEntry
reordered = entry_with (credit_line ∷ debit_line ∷ [])

swapped : Perm (credit_line ∷ debit_line ∷ []) (debit_line ∷ credit_line ∷ [])
swapped = Perm.swap debit_line credit_line []

canonical_entry_string-perm_example :
    canonical_entry_string reordered ≡ canonical_entry_string entry
canonical_entry_string-perm_example =
    canonical_entry_string-perm entry (credit_line ∷ debit_line ∷ []) swapped

debit-IsCleanLine : IsCleanLine debit_line
debit-IsCleanLine = record {
  account = ground arith;
  direction = ground arith;
  amount = (pos 125000, refl);
  currency = ground arith;
}

credit-IsCleanLine : IsCleanLine credit_line
credit-IsCleanLine = record {
  account = ground arith;
  direction = ground arith;
  amount = (pos 125000, refl);
  currency = ground arith;
}

entry_with-IsClean :
    (lines : List PublicEntryLine) → All IsCleanLine lines → IsClean (entry_with lines)
entry_with-IsClean lines h = record {
  id = ground arith;
  institution = ground arith;
  year = (pos 2026, refl);
  date = ground arith;
  status = ground arith;
  kind = ground arith;
  lines = h;
}

entry-IsClean : IsClean entry
entry-IsClean =
    entry_with-IsClean (debit_line ∷ credit_line ∷ []) (debit-IsCleanLine, (credit-IsCleanLine, tt))

reordered-IsClean : IsClean reordered
reordered-IsClean =
    entry_with-IsClean (credit_line ∷ debit_line ∷ []) (credit-IsCleanLine, (debit-IsCleanLine, tt))

canonical_entry_string_injective_example : SameEntry reordered entry
canonical_entry_string_injective_example =
    canonical_entry_string_injective reordered entry reordered-IsClean entry-IsClean
      canonical_entry_string-perm_example

canonical_entry_string_moved_example :
    canonical_entry_string
      (record entry { id = codes "je" ++ codes "|" ++ codes "1"; institution_id = codes "minfin" })
    ≡ canonical_entry_string (record entry {
      id = codes "je";
      institution_id = codes "1" ++ codes "|" ++ codes "minfin";
    })
canonical_entry_string_moved_example =
    canonical_entry_string_moved entry (codes "je") (codes "1") (codes "minfin")

-- A tree of two leaves: the entry's and another one.
abbrev tree_of : PublicEntry → Tree
tree_of e = node (leaf (codes "a")) (leaf (checksum (canonical_entry_string e)))

abbrev response_of : PublicEntry → ProofResponse
response_of e = record {
  entry = e;
  anchor = record {
    id = codes "anc-1";
    merkle_root = root checksum (tree_of e);
    backend = codes "transparency-log";
    backend_ref = codes "tlog:1";
    anchored_at = codes "2026-07-10T00:00:00Z";
  };
  leaf_hash = checksum (canonical_entry_string e);
  proof = record { hash = codes "a"; left = true } ∷ [];
}

included :
    (e : PublicEntry)
    → Inclusion checksum (tree_of e) (response_of e).leaf_hash (response_of e).proof
unfolding root
included e = Inclusion.in_right (Inclusion.here (checksum (canonical_entry_string e))) refl

verify_proof-Inclusion_example : (verify_proof checksum (response_of entry)).verified ≡ true
verify_proof-Inclusion_example =
    verify_proof-Inclusion checksum (tree_of entry) (response_of entry) refl refl (included entry)

reordered_verified : (verify_proof checksum (response_of reordered)).verified ≡ true
reordered_verified =
    verify_proof-Inclusion checksum (tree_of reordered) (response_of reordered) refl refl
      (included reordered)

one_root : (response_of reordered).anchor.merkle_root ≡ (response_of entry).anchor.merkle_root
one_root = rw canonical_entry_string-perm_example refl

verify_proof-SameEntry_example : SameEntry reordered entry ⊎ Collision checksum
verify_proof-SameEntry_example =
    verify_proof-SameEntry checksum 1 checksum_sized (response_of reordered) (response_of entry)
      reordered-IsClean entry-IsClean reordered_verified verify_proof-Inclusion_example one_root
      (refl, tt)

-- A stand-in for SHA-256 on bytes.
abbrev digest : List ℕ → List ℕ
digest bytes = sum bytes % 256 ∷ []

abbrev web_entry : ProofEntry
web_entry = record {
  id = codes "je-1";
  institution_id = codes "minfin";
  fiscal_year = of_ℕ 2026;
  effective_date = codes "2026-06-28";
  status = codes "POSTED";
  entry_type = codes "STANDARD";
  lines =
      record {
        account_code = codes "6202";
        direction = debit;
        amount_minor = of_ℕ 125000;
        currency = codes "KES";
      }
      ∷ [];
}

abbrev web_proof : EntryProof
web_proof = record {
  entry = web_entry;
  anchor = (response_of entry).anchor;
  leaf_hash = codes "00";
  proof = record { hash = codes "a1"; left = false } ∷ [];
}

check-verify_proof_example :
    is_verified (check digest (ok web_proof))
    ≡ (verify_proof (sha256_hex digest) (public_response web_proof)).verified
check-verify_proof_example = check-verify_proof digest web_proof

abbrev demo : Env
demo = record { api_base_url = none; token = none }

abbrev offline : Request → ProofReply
offline request = unreachable

-- The second entry of the demo mode.
abbrev purchase : JournalEntry
purchase = record {
  id = codes "je-2026-0002";
  institution_id = codes "minfin";
  fiscal_year = of_ℕ 2026;
  effective_date = codes "2026-06-29";
  description = codes "Office supplies purchase";
  status = posted;
  entry_type = standard;
  reverses_entry_id = none;
  lines =
      record {
        account_code = codes "22";
        direction = debit;
        amount_minor = of_ℕ 4000;
        currency = codes "USD";
      }
      ∷ record {
        account_code = codes "6202";
        direction = credit;
        amount_minor = of_ℕ 4000;
        currency = codes "USD";
      }
      ∷ [];
}

verify_demo_example :
    (verify digest demo offline (codes "je-2026-0002")
      ≡ verified
          (demo_hash digest purchase)
          (demo_hash digest purchase)
          (codes "transparency-log")
          (codes "2026-07-10T00:00:00Z"))
    × (verify digest demo offline (codes "je-2026-0009") ≡ unanchored)
verify_demo_example =
    verify_demo digest demo offline purchase (codes "je-2026-0009") refl
      (Memᴰ.tail (Memᴰ.head refl)) (λ e. ground arith, (λ e. ground arith, tt))

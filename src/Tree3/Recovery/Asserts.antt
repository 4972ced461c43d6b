-- ===== src/Tree3/Recovery/Asserts.antt =====
-- Proofs about src/engines-experimental/tree3.cc: the assertion of `assert_invariants` that no key
-- of an inner node is empty, in `Recover`.
use pmemkv.Base.{
  ◌≡◌, ◌≢◌, refl, List, [], ◌∷◌, Option, some, Bytes, length, arith, inl, inr, true, false,
  Bool-cases, is_some, ◌==◌,
}
use pmemkv.Comparator.{binary_compare}
use pmemkv.Tree3.{before}
use pmemkv.Tree3.Nodes.Order.{Bound}
use pmemkv.Tree3.Rebuilding.{IsAscending, IsAscending-less}
use pmemkv.Tree3.Recovery.{RecoveredLeaf, asserts_pass}
use pmemkv.Tree3.Recovery.Listing.{Each}

nil_of_length : (xs : Bytes) → (length xs == 0) ≡ true → xs ≡ []
nil_of_length [] h = refl
nil_of_length (x ∷ xs) h = ground arith

-- the empty key has a value, and another key has one
abbrev pub EmptyKeyAside : (Bytes → Option Bytes) → Type 0
EmptyKeyAside value =
    (is_some (value []) ≡ true) × ((q : Bytes) × (q ≢ []) × (is_some (value q) ≡ true))

pub no_assertion : asserts_pass [] ≡ false → ⊥
unfolding asserts_pass
no_assertion h = cc

before_nil : (a : Bytes) → before a [] ≡ true → ⊥
unfolding before binary_compare
before_nil [] h = ground arith
before_nil (x ∷ xs) h = ground arith

-- An assertion that fails is about an empty key, and there is another leaf with a higher one.
pub asserts_pass-false :
    (P : RecoveredLeaf → Type 0) (lo : Bound) (l : RecoveredLeaf) (rs : List RecoveredLeaf)
    → IsAscending lo l.max_key rs
    → Each P (l ∷ rs)
    → asserts_pass (l ∷ rs) ≡ false
    → (x : RecoveredLeaf) × (y : RecoveredLeaf) × P x × P y × (x.max_key ≡ []) × (y.max_key ≢ [])
unfolding asserts_pass
asserts_pass-false P lo l [] a f h = cc
asserts_pass-false P lo l (m ∷ rs) a f h = elim (Bool-cases (length l.max_key == 0)) [
  | inl e ↦
      let less : before l.max_key m.max_key ≡ true =
        IsAscending-less (some l.max_key) m.max_key rs a.1 in
      (l, m, f.0, f.1.0, nil_of_length l.max_key e, λ n. before_nil l.max_key (rw n at less))
  | inr e ↦ asserts_pass-false P (some l.max_key) m rs a.1 f.1 (rw e at h)
]

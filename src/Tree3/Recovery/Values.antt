-- ===== src/Tree3/Recovery/Values.antt =====
-- Proofs about src/engines-experimental/tree3.cc: the values in the leaves that `Recover` has read.
use pmemkv.Base.{
  ℕ, ◌≡◌, ◌≢◌, ◌<◌, ◌∙◌, ◌⊎◌, refl, sym, ap, List, ◌∷◌, none, some, Bytes, length, inl, inr, true,
}
use pmemkv.Tree3.{at_most}
use pmemkv.Tree3.Filling.{IsLeafNode, Stores, matches-in_use, matches_key}
use pmemkv.Tree3.Leaves.{Memory, KvLeafNode, leaf_keys, slot_at, hash_at, key_at}
use pmemkv.Tree3.Nodes.{Top}
use pmemkv.Tree3.Rebuilding.{leaf_for, IsAscending}
use pmemkv.Tree3.Recovery.{RecoveredLeaf}
use pmemkv.Tree3.Recovery.Finding.{IsFrom, place_of_used}
use pmemkv.Tree3.Recovery.Listing.{Each, Has, Has-map}
use pmemkv.Tree3.Recovery.Origin.{leaf_value-Agrees}
use pmemkv.Tree3.Recovery.Ranges.{leaf_for-Each, leaf_for-place}
use pmemkv.Tree3.Slots.{IsEmpty, leaf_value}
use pmemkv.Tree3.States.{ph, ne_zero, find_slot-matches, find_slot_cases}
use pmemkv.Tree3.Validity.{TreeValid, place}

module _ (before_table : ℕ → ℕ) where
  -- A leaf without an entry has no value.
  pub leaf_value-IsEmpty :
      (mem : Memory) (n : KvLeafNode) (q : Bytes)
      → IsLeafNode (ph before_table) (ne_zero before_table) mem n
      → IsEmpty mem n.leaf
      → leaf_value (ph before_table) (ne_zero before_table) leaf_keys mem n q ≡ none
  leaf_value-IsEmpty mem n q w empty = elim (find_slot_cases before_table mem n q w) [
    | inl (f, e) ↦ e
    | inr (slot, f, b, z, e) ↦ let z' : none ≡ some b = rw (empty slot) at z in cc
  ]

  module _ (mem : Memory) (t : Top KvLeafNode)
      (v : TreeValid (ph before_table) (ne_zero before_table) mem t) where
    abbrev pub Read : RecoveredLeaf → Type 0
    Read = IsFrom (ph before_table) (ne_zero before_table) mem t

    -- The leaf that a node is read from has an entry.
    pub IsFrom-used : (r : RecoveredLeaf) → Read r → IsEmpty mem r.leafnode.leaf → ⊥
    IsFrom-used r f empty =
        let (j, u, k) = f.max_used in
        let s = (v.leaf_nodes r.max_key).stored j u in
        let e : slot_at mem (place t r.max_key).2.leaf j ≡ none =
          ap (λ (l : ℕ). slot_at mem l j) (sym f.agrees.leaf) ∙ empty j in
        let x : Stores none (hash_at (place t r.max_key).2 j) (key_at (place t r.max_key).2 j) =
          rw e at s in
        x

    -- Each key has the value of the tree in the leaf that the recovered tree has for it.
    pub leaf_for-value :
        (x : RecoveredLeaf) (xs : List RecoveredLeaf) (q : Bytes)
        → IsAscending none x.max_key xs
        → Each Read (x ∷ xs)
        → ((l : ℕ) → l < length mem → IsEmpty mem l ⊎ Has (λ r. r.leafnode.leaf ≡ l) (x ∷ xs))
        → leaf_value
            (ph before_table)
            (ne_zero before_table)
            leaf_keys
            mem
            (leaf_for none x.leafnode x.max_key xs q).2
            q
          ≡ leaf_value (ph before_table) (ne_zero before_table) leaf_keys mem (place t q).2 q
    leaf_for-value x xs q a fs complete =
        let n = (place t q).2 in
        let w = v.leaf_nodes q in
        elim (find_slot_cases before_table mem n q w) [
          | inl (f, e) ↦
              let (y, g, s) = leaf_for-Each Read none x xs q fs in
              let m = (place t y.max_key).2 in
              let same =
                leaf_value-Agrees (ph before_table) (ne_zero before_table) y.leafnode m g.agrees mem
                  q in
              rw (s, same)
                (elim (find_slot_cases before_table mem m q (v.leaf_nodes y.max_key)) [
                  | inl (f', e') ↦ e' ∙ sym e
                  | inr (slot, f', b, z, e') ↦
                      let h = find_slot-matches before_table leaf_keys m q slot f' in
                      let u = matches-in_use (ph before_table) (ne_zero before_table) m slot q h in
                      let k = matches_key (ph before_table) (ne_zero before_table) m slot q h in
                      let p : place t q ≡ place t y.max_key = rw k at (
                        place_of_used (ph before_table) (ne_zero before_table) mem t v y.max_key
                          slot u) in
                      rw p refl
                ])
          | inr (slot, f, b, z, e) ↦
              let h = find_slot-matches before_table leaf_keys n q slot f in
              let u = matches-in_use (ph before_table) (ne_zero before_table) n slot q h in
              let k = matches_key (ph before_table) (ne_zero before_table) n slot q h in
              let there : Has (λ r. (place t r.max_key ≡ place t q) × (at_most q r.max_key ≡ true))
                  (x ∷ xs) =
                elim (complete n.leaf w.leaf.allocated) [
                  | inl empty ↦ let z' : none ≡ some b = rw (empty slot) at z in cc
                  | inr has ↦
                      Has-map Read (λ r. r.leafnode.leaf ≡ n.leaf) _
                        (λ r g s.
                          let p : place t r.max_key ≡ place t q =
                            v.own r.max_key q (sym g.agrees.leaf ∙ s) in
                          let top : (j : ℕ)
                              → hash_at n j ≢ 0
                              → at_most (key_at n j) r.max_key ≡ true =
                            rw p at g.highest in
                          (p, rw k at (top slot u)))
                        (x ∷ xs) fs has
                ] in
              let (y, g, s, p) =
                leaf_for-place (ph before_table) (ne_zero before_table) mem t v none x xs q a fs
                  there in
              rw s (
                leaf_value-Agrees (ph before_table) (ne_zero before_table) y.leafnode
                  (place t y.max_key).2 g.agrees mem q
                ∙ rw p refl)
        ]

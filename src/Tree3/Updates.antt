-- ===== src/Tree3/Updates.antt =====
-- Proofs about src/engines-experimental/tree3.cc: `put` and `remove` in a valid state.
use pmemkv.Base.{
  ℕ, ◌≡◌, ◌≢◌, ◌<◌, ◌∙◌, ◌⊎◌, refl, sym, ap, true, false, List, Option, none, some, Bytes,
  if◌then◌else◌, arith, Bool-cases, inl, inr, get_or_end, ltb,
}
use pmemkv.Tree3.{same}
use pmemkv.Tree3.Changes.{
  IsChanged, LeafStep-IsChanged, allocated-TreeValid, allocated_values, place-inside,
}
use pmemkv.Tree3.Filling.{IsLeafNode, empty_unmatched}
use pmemkv.Tree3.Leaves.{
  Memory, KvLeafNode, leaf_keys, hash_at, allocate, leaf_fill_specific_slot, leaf_split_full,
  divide,
}
use pmemkv.Tree3.Nodes.{Top, kept, grow_top}
use pmemkv.Tree3.Nodes.Growth.{locate_less}
use pmemkv.Tree3.Slots.{matches}
use pmemkv.Tree3.Split.{divide-LeafStep}
use pmemkv.Tree3.States.{InUse, TopValid, ph, ne_zero, used-IsLeaf}
use pmemkv.Tree3.Steps.{Untaken, fill-LeafStep}
use pmemkv.Tree3.Unused.{IsSpare, Unused-map, allocate-IsAllocated}
use pmemkv.Tree3.Validity.{place}

pub only-InUse : (t : Top KvLeafNode) (l : ℕ) → InUse (some t) l ⊎ Untaken l → InUse (some t) l
only-InUse t l (inl x) = x
only-InUse t l (inr x) = absurd x

module _ (before_table : ℕ → ℕ) where
  -- No slot behind the last one matches a key.
  pub unmatched_everywhere :
      (mem : Memory) (n : KvLeafNode) (key : Bytes)
      → IsLeafNode (ph before_table) (ne_zero before_table) mem n
      → ((j : ℕ) → j < leaf_keys → matches (ph before_table) (ne_zero before_table) n j key ≡ false)
      → (j : ℕ) → matches (ph before_table) (ne_zero before_table) n j key ≡ false
  unmatched_everywhere mem n key v f j = elim (Bool-cases (ltb j leaf_keys)) [
    | inl h ↦ f j (ground arith)
    | inr h ↦
        empty_unmatched (ph before_table) (ne_zero before_table) n j key
          (get_or_end n.hashes j 0 (rw v.hashes_length (ground arith)))
  ]

  -- The state of `leaf_split_full` is that of the split after the allocation.
  leaf_split_full-divide :
      (n : KvLeafNode) (hash : ℕ) (key value : Bytes) (mem : Memory) (ls : List ℕ)
      → let a = allocate mem ls in
        let d = divide n hash key value a.0 a.2 in
        leaf_split_full n hash key value mem ls ≡ (d.0, a.1, d.1)
  unfolding leaf_split_full
  leaf_split_full-divide n hash key value mem ls = refl

  module _ (mem : Memory) (ls : List ℕ) (t : Top KvLeafNode) (key value : Bytes)
      (v : TopValid before_table mem (some t)) (u : IsSpare mem (InUse (some t)) ls) where
    abbrev n : KvLeafNode
    n = (place t key).2

    -- a write into one slot of the leaf
    pub fill-IsChanged :
        (slot : ℕ)
        → slot < leaf_keys
        → ((j : ℕ) → j ≢ slot → matches (ph before_table) (ne_zero before_table) n j key ≡ false)
        → (hash_at n slot ≡ 0)
          ⊎ (matches (ph before_table) (ne_zero before_table) n slot key ≡ true)
        → let r = leaf_fill_specific_slot n (ph before_table key) key value slot mem in
          IsChanged before_table mem
            (some t)
            key
            (some value)
            r.0
            ls
            (some (grow_top t key (λ _. kept r.1)))
    fill-IsChanged slot s only free =
        LeafStep-IsChanged before_table mem _ ls t key _ _ (some value) v
          (fill-LeafStep (ph before_table) (ne_zero before_table) mem (place t key)
            (v.leaf_nodes key) (v.in_range key)
            (locate_less KvLeafNode t.height none none t.node key v.ordered) key slot s value only
            free (place-inside t key))
          (λ q e. e) (Unused-map mem mem _ _ ls (λ l w. w) (only-InUse t) u.unused) u.others

    -- the split of the leaf
    pub split-IsChanged :
        ((j : ℕ) → j < leaf_keys → hash_at n j ≢ 0)
        → ((j : ℕ) → matches (ph before_table) (ne_zero before_table) n j key ≡ false)
        → let r = leaf_split_full n (ph before_table key) key value mem ls in
          IsChanged before_table mem
            (some t)
            key
            (some value)
            r.0
            r.1
            (some (grow_top t key (λ _. r.2)))
    split-IsChanged full fresh =
        let a =
          allocate-IsAllocated mem (InUse (some t)) ls
            (λ l. used-IsLeaf before_table mem (some t) l v) u in
        let v1 = allocated-TreeValid before_table mem t (allocate mem ls) v a in
        let c =
          LeafStep-IsChanged before_table (allocate mem ls).0 _ (allocate mem ls).1 t key _ _
            (some value) v1
            (divide-LeafStep (ph before_table) (ne_zero before_table) (allocate mem ls).0
              (place t key) (v1.leaf_nodes key) (v.in_range key) key value full fresh
              (place-inside t key) (allocate mem ls).2 a.leaf (λ e. a.not_in_use (key, e)) a.empty)
            (λ q e. a.not_in_use (q, sym e))
            (Unused-map _ _ _ _ (allocate mem ls).1 (λ l w. w) (λ l x. x) a.unused) a.others in
        rw (leaf_split_full-divide n (ph before_table key) key value mem ls) (record {
          top_valid = c.top_valid;
          spare = c.spare;
          values = λ q.
              c.values q
              ∙ ap (λ (x : Option Bytes). if same key q then some value else x)
                  (allocated_values before_table mem t (allocate mem ls) v a q);
        })

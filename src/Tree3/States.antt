-- ===== src/Tree3/States.antt =====
-- Proofs about src/engines-experimental/tree3.cc: the states of the engine, the value that a state
-- has for a key, and what `get` and `exists` make of it.
use pmemkv.Base.{
  ℕ, zero, suc, ◌≡◌, ◌≢◌, ◌⊎◌, refl, sym, true, false, List, Option, none, some, Bytes, is_some,
  if◌then◌else◌, Bool-cases, inl, inr, Option-cases,
}
use pmemkv.Engine.{ValueCallback}
use pmemkv.Robinhood.Shards.{check_outside_tx}
use pmemkv.Status.{ok, not_found, returns}
use pmemkv.Tree3.Filling.{IsLeafNode, matches-in_use}
use pmemkv.Tree3.Leaves.{Buffer, Memory, KvLeafNode, leaf_keys, slot_at, find_slot}
use pmemkv.Tree3.Methods.{Tree3, find_key, get, exists}
use pmemkv.Tree3.Nodes.{Top, leaf_search}
use pmemkv.Tree3.Nodes.Growth.{locate-leaf_search}
use pmemkv.Tree3.Pearson.{pearson_hash, pearson_hash-ne-zero}
use pmemkv.Tree3.Slots.{IsLeaf, matches, leaf_value, find_slot-leaf_value, value_in}
use pmemkv.Tree3.Unused.{IsSpare}
use pmemkv.Tree3.Validity.{TreeValid, place}

-- the persistent leaves of the tree
abbrev pub InUse : Option (Top KvLeafNode) → ℕ → Type 0
InUse none l = ⊥
InUse (some t) l = (q : Bytes) × ((place t q).2.leaf ≡ l)

pub search_place : (t : Top KvLeafNode) (q : Bytes) → leaf_search t.height t.node q ≡ (place t q).2
search_place t q = sym (locate-leaf_search KvLeafNode t.height none none t.node q)

module _ (before_table : ℕ → ℕ) where
  abbrev pub ph : Bytes → ℕ
  ph key = pearson_hash before_table key

  abbrev pub ne_zero : (k : Bytes) → ph k ≢ 0
  ne_zero k = pearson_hash-ne-zero before_table k

  abbrev pub TopValid : Memory → Option (Top KvLeafNode) → Type 0
  TopValid mem none = Unit
  TopValid mem (some t) = TreeValid ph ne_zero mem t

  -- The tree is in order with its leaves, the unused leaves are not in it, and no leaf that is not
  -- in it has an entry.
  pub record IsValid (s : Tree3) : Type 0 where
    pub top_valid : TopValid s.leaves s.tree_top
    pub spare : IsSpare s.leaves (InUse s.tree_top) s.leaves_prealloc

  abbrev pub value_at : Memory → Option (Top KvLeafNode) → Bytes → Option Bytes
  value_at mem none q = none
  value_at mem (some t) q = leaf_value ph ne_zero leaf_keys mem (place t q).2 q

  -- the map from keys to values that a state stands for
  unfoldable pub tree_value : Tree3 → Bytes → Option Bytes
  tree_value s q = value_at s.leaves s.tree_top q

  pub used-IsLeaf :
      (mem : Memory) (t : Option (Top KvLeafNode)) (l : ℕ)
      → TopValid mem t
      → InUse t l
      → IsLeaf mem l
  used-IsLeaf mem none l v u = absurd u
  used-IsLeaf mem (some t) l v (q, e) = rw (← e) (v.leaf_nodes q).leaf

  pub find_slot-matches :
      (k : ℕ) (n : KvLeafNode) (q : Bytes) (slot : ℕ)
      → find_slot k n (ph q) q ≡ some slot
      → matches ph ne_zero n slot q ≡ true
  unfolding find_slot
  find_slot-matches zero n q slot e = cc
  find_slot-matches (suc k) n q slot e = elim (Bool-cases (matches ph ne_zero n k q)) [
    | inl m ↦ let e' : some k ≡ some slot = rw m at e in let e2 : k ≡ slot = cc in rw (← e2) m
    | inr m ↦ find_slot-matches k n q slot (rw m at e)
  ]

  -- A search in a leaf ends at no slot, or at one with the value.
  pub find_slot_cases :
      (mem : Memory) (n : KvLeafNode) (q : Bytes)
      → IsLeafNode ph ne_zero mem n
      → ((find_slot leaf_keys n (ph q) q ≡ none) × (leaf_value ph ne_zero leaf_keys mem n q ≡ none))
        ⊎ ((slot : ℕ) × (find_slot leaf_keys n (ph q) q ≡ some slot)
            × (b : Buffer) × (slot_at mem n.leaf slot ≡ some b)
            × (leaf_value ph ne_zero leaf_keys mem n q ≡ some b.value))
  find_slot_cases mem n q v =
      let e = find_slot-leaf_value ph ne_zero leaf_keys mem n q in
      elim (Option-cases (find_slot leaf_keys n (ph q) q)) [
        | inl h ↦ inl (h, rw h at e)
        | inr (slot, h) ↦
            let u = matches-in_use ph ne_zero n slot q (find_slot-matches leaf_keys n q slot h) in
            let there = v.stored slot u in
            elim (Option-cases (slot_at mem n.leaf slot)) [
              | inl z ↦ let e2 : ⊥ = rw z at there in absurd e2
              | inr (b, z) ↦
                  let e' : leaf_value ph ne_zero leaf_keys mem n q
                      ≡ value_in ph ne_zero (slot_at mem n.leaf slot) =
                    rw h at e in
                  inr (slot, h, b, z, rw z at e')
            ]
      ]

  -- What `get` and `exists` return in a tree, or without one.
  pub get-value_at :
      {A : Type 0} (mem : Memory) (ls : List ℕ) (t : Option (Top KvLeafNode)) (q : Bytes)
      (callback : ValueCallback A) (arg : A)
      → TopValid mem t
      → get before_table false q callback
          (record { leaves = mem; leaves_prealloc = ls; tree_top = t })
          arg
        ≡ returns (
            some
              (elim (value_at mem t q) [ none ↦ (arg, not_found) | some v ↦ (callback v arg, ok) ]))
  unfolding get check_outside_tx find_key
  get-value_at mem ls none q callback arg v = refl
  get-value_at mem ls (some t) q callback arg v =
      rw (search_place t q) (elim (find_slot_cases mem (place t q).2 q (v.leaf_nodes q)) [
        | inl (f, e) ↦ rw (f, e) refl
        | inr (slot, f, b, z, e) ↦ rw (f, e, search_place t q, z) refl
      ])

  pub exists-value_at :
      (mem : Memory) (ls : List ℕ) (t : Option (Top KvLeafNode)) (q : Bytes)
      → TopValid mem t
      → exists before_table false q (record { leaves = mem; leaves_prealloc = ls; tree_top = t })
        ≡ returns (if is_some (value_at mem t q) then ok else not_found)
  unfolding exists check_outside_tx find_key
  exists-value_at mem ls none q v = refl
  exists-value_at mem ls (some t) q v =
      rw (search_place t q) (elim (find_slot_cases mem (place t q).2 q (v.leaf_nodes q)) [
        | inl (f, e) ↦ rw (f, e) refl
        | inr (slot, f, b, z, e) ↦ rw (f, e) refl
      ])

  -- In a valid state outside of a transaction, `get` passes the value of the key to the callback,
  -- or returns `not_found` if it has none, and `exists` returns whether it has one. No null pointer
  -- is read.
  pub get-tree_value :
      {A : Type 0} (s : Tree3) (q : Bytes) (callback : ValueCallback A) (arg : A)
      → IsValid s
      → (get before_table false q callback s arg
          ≡ returns (
              some (elim (tree_value s q) [
                | none ↦ (arg, not_found)
                | some v ↦ (callback v arg, ok)
              ])))
        × (exists before_table false q s
            ≡ returns (if is_some (tree_value s q) then ok else not_found))
  unfolding tree_value
  get-tree_value s q callback arg v = (
    get-value_at s.leaves s.leaves_prealloc s.tree_top q callback arg v.top_valid,
    exists-value_at s.leaves s.leaves_prealloc s.tree_top q v.top_valid,
  )

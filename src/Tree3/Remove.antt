-- ===== src/Tree3/Remove.antt =====
-- Proofs about src/engines-experimental/tree3.cc: `remove` against a map from keys to values.
use pmemkv.Base.{
  ℕ, ◌≡◌, ◌<◌, refl, ap, true, false, List, [], Option, none, some, Bytes, if◌then◌else◌, arith,
  Bool-cases, inl, inr, get_or_end, ltb, is_some, set,
}
use pmemkv.Robinhood.Shards.{check_outside_tx}
use pmemkv.Status.{Status, ok, not_found, Outcome, returns}
use pmemkv.Tree3.{same}
use pmemkv.Tree3.Changes.{place-inside, IsChanged, LeafStep-IsChanged}
use pmemkv.Tree3.Filling.{matches-in_use}
use pmemkv.Tree3.Leaves.{Memory, KvLeafNode, leaf_keys, find_slot, set_slot}
use pmemkv.Tree3.Methods.{Tree3, remove, remove_at, find_key}
use pmemkv.Tree3.Nodes.{Top, kept, grow_top}
use pmemkv.Tree3.Nodes.Growth.{locate_less}
use pmemkv.Tree3.Nodes.Order.{same_iff}
use pmemkv.Tree3.Put.{state}
use pmemkv.Tree3.Slots.{matches}
use pmemkv.Tree3.States.{
  InUse, TopValid, value_at, tree_value, ph, ne_zero, search_place, IsValid, find_slot_cases,
  find_slot-matches,
}
use pmemkv.Tree3.Steps.{free-LeafStep}
use pmemkv.Tree3.Unused.{IsSpare, Unused-map}
use pmemkv.Tree3.Updates.{only-InUse}
use pmemkv.Tree3.Validity.{place}

abbrev found_in : KvLeafNode → Option ℕ → Option (KvLeafNode × ℕ)
found_in n none = none
found_in n (some slot) = some (n, slot)

module _ (before_table : ℕ → ℕ) where
  -- What `remove` returns, and the state after it.
  abbrev IsRemoved : Memory → Option (Top KvLeafNode) → Bytes → Outcome (Tree3 × Status) → Type 0
  IsRemoved mem t key r =
      (s' : Tree3) × (r
        ≡ returns (s', if is_some (value_at before_table mem t key) then ok else not_found))
      × IsChanged before_table mem t key none s'.leaves s'.leaves_prealloc s'.tree_top

  -- Nothing changes where the key has no value.
  absent-IsChanged :
      (mem : Memory) (ls : List ℕ) (t : Option (Top KvLeafNode)) (key : Bytes)
      → TopValid before_table mem t
      → IsSpare mem (InUse t) ls
      → value_at before_table mem t key ≡ none
      → IsChanged before_table mem t key none mem ls t
  absent-IsChanged mem ls t key v u e = record {
    top_valid = v;
    spare = u;
    values = λ q. elim (Bool-cases (same key q)) [
      | inl h ↦ rw (h, ← (same_iff key q).0 h) e
      | inr h ↦ rw h refl
    ];
  }

  module _ (mem : Memory) (ls : List ℕ) (t : Top KvLeafNode) (key : Bytes)
      (v : TopValid before_table mem (some t)) (u : IsSpare mem (InUse (some t)) ls) where
    abbrev n : KvLeafNode
    n = (place t key).2

    found_below :
        (slot : ℕ)
        → matches (ph before_table) (ne_zero before_table) n slot key ≡ true
        → slot < leaf_keys
    found_below slot m = elim (Bool-cases (ltb slot leaf_keys)) [
      | inl h ↦ ground arith
      | inr h ↦ absurd (
          matches-in_use (ph before_table) (ne_zero before_table) n slot key m
            (get_or_end n.hashes slot 0 (rw (v.leaf_nodes key).hashes_length (ground arith))))
    ]

    freed-IsChanged :
        (slot : ℕ)
        → matches (ph before_table) (ne_zero before_table) n slot key ≡ true
        → IsChanged before_table mem (some t) key none (set_slot mem n.leaf slot none) ls (
            some (
              grow_top t key
                (λ _. kept (record n { hashes = set n.hashes slot 0; keys = set n.keys slot [] }))))
    freed-IsChanged slot m =
        LeafStep-IsChanged before_table mem _ ls t key _ _ none v
          (free-LeafStep (ph before_table) (ne_zero before_table) mem (place t key)
            (v.leaf_nodes key) (v.in_range key)
            (locate_less KvLeafNode t.height none none t.node key v.ordered) key slot
            (found_below slot m) m (place-inside t key))
          (λ q e. e) (Unused-map mem mem _ _ ls (λ l w. w) (only-InUse t) u.unused) u.others

    -- where the search for the key ends
    find_key_at :
        (r : Option ℕ)
        → find_slot leaf_keys n (ph before_table key) key ≡ r
        → find_key before_table false (state mem ls (some t)) key ≡ found_in n r
    unfolding find_key
    find_key_at r e =
        rw (search_place t key, e, find_key)
          (ap (λ (m : KvLeafNode). found_in m r) (search_place t key))

    remove-IsRemoved :
        IsRemoved mem (some t) key (remove before_table false key (state mem ls (some t)))
    unfolding remove check_outside_tx remove_at
    remove-IsRemoved = elim (find_slot_cases before_table mem n key (v.leaf_nodes key)) [
      | inl (f, e) ↦ (
        state mem ls (some t),
        rw (find_key_at none f, e) refl,
        absent-IsChanged mem ls (some t) key v u e,
      )
      | inr (slot, f, b, z, e) ↦ (
        _,
        rw (find_key_at (some slot) f, e) refl,
        freed-IsChanged slot (find_slot-matches before_table leaf_keys n key slot f),
      )
    ]

  remove-IsRemoved_at :
      (mem : Memory) (ls : List ℕ) (t : Option (Top KvLeafNode)) (key : Bytes)
      → TopValid before_table mem t
      → IsSpare mem (InUse t) ls
      → IsRemoved mem t key (remove before_table false key (state mem ls t))
  unfolding remove check_outside_tx
  remove-IsRemoved_at mem ls none key v u =
      (state mem ls none, refl, absent-IsChanged mem ls none key v u refl)
  remove-IsRemoved_at mem ls (some t) key v u = remove-IsRemoved mem ls t key v u

  -- In a valid state outside of a transaction, `remove` returns `ok` if the key has a value and
  -- `not_found` if it has none, with a valid state, in which the key has no value and all other
  -- keys have what they had.
  pub remove-tree_value :
      (s : Tree3) (key : Bytes)
      → IsValid before_table s
      → (s' : Tree3) × (remove before_table false key s
          ≡ returns (s', if is_some (tree_value before_table s key) then ok else not_found))
        × IsValid before_table s'
        × ((q : Bytes)
            → tree_value before_table s' q
              ≡ (if same key q then none else tree_value before_table s q))
  unfolding tree_value
  remove-tree_value s key v =
      let (s', e, c) =
        remove-IsRemoved_at s.leaves s.leaves_prealloc s.tree_top key v.top_valid v.spare in
      (s', e, record { top_valid = c.top_valid; spare = c.spare }, c.values)

-- ===== src/Tree3/Put.antt =====
-- Proofs about src/engines-experimental/tree3.cc: `put` and `remove` against a map from keys to
-- values.
use mathlib.Core.Path.{subst}
use pmemkv.Base.{
  ℕ, ◌≡◌, ◌≢◌, ◌<◌, ◌∙◌, ◌⊎◌, refl, sym, ap, true, false, List, [], Option, none, some, Bytes,
  if◌then◌else◌, arith, Bool-cases, inl, inr, get_or-replicate, length-replicate,
}
use pmemkv.Robinhood.Shards.{check_outside_tx}
use pmemkv.Status.{ok, returns}
use pmemkv.Tree3.{same}
use pmemkv.Tree3.Changes.{IsChanged}
use pmemkv.Tree3.Filling.{empty_unmatched, matches-in_use}
use pmemkv.Tree3.Leaves.{
  Memory, KvLeafNode, leaf_keys, hash_at, allocate, leaf_fill_slot_for_key, slot_for_key,
  leaf_fill_specific_slot, new_leaf_node,
}
use pmemkv.Tree3.Methods.{Tree3, put, put_in_leaf, put_at, add_head_leaf}
use pmemkv.Tree3.Nodes.{Top, grow_top}
use pmemkv.Tree3.Scanning.{matched, emptied, passed, slot_for_key-SlotFor}
use pmemkv.Tree3.Slots.{IsLeaf, IsEmpty, matches, leaf_value-none}
use pmemkv.Tree3.States.{InUse, TopValid, tree_value, ph, ne_zero, search_place, IsValid}
use pmemkv.Tree3.Unused.{IsSpare, IsAllocated, Unused-map, allocate-IsAllocated}
use pmemkv.Tree3.Updates.{unmatched_everywhere, fill-IsChanged, split-IsChanged}
use pmemkv.Tree3.Validity.{place}

abbrev pub state : Memory → List ℕ → Option (Top KvLeafNode) → Tree3
state mem ls t = record { leaves = mem; leaves_prealloc = ls; tree_top = t }

-- the two ways out of `leaf_fill_slot_for_key`
filled_at :
    (n : KvLeafNode) (hash : ℕ) (key value : Bytes) (mem : Memory) (slot : ℕ)
    → slot_for_key leaf_keys none n hash key ≡ some slot
    → leaf_fill_slot_for_key n hash key value mem
      ≡ some (leaf_fill_specific_slot n hash key value slot mem)
unfolding leaf_fill_slot_for_key
filled_at n hash key value mem slot e = rw (e, leaf_fill_slot_for_key) refl

not_filled :
    (n : KvLeafNode) (hash : ℕ) (key value : Bytes) (mem : Memory)
    → slot_for_key leaf_keys none n hash key ≡ none
    → leaf_fill_slot_for_key n hash key value mem ≡ none
unfolding leaf_fill_slot_for_key
not_filled n hash key value mem e = rw (e, leaf_fill_slot_for_key) refl

module _ (before_table : ℕ → ℕ) where
  -- A valid state in which the value of `key` is changed to `new`.
  abbrev IsUpdated : Tree3 → Bytes → Option Bytes → Tree3 → Type 0
  IsUpdated s key new s' =
      IsChanged before_table s.leaves s.tree_top key new s'.leaves s'.leaves_prealloc s'.tree_top

  module _ (mem : Memory) (ls : List ℕ) (t : Top KvLeafNode) (key value : Bytes)
      (v : TopValid before_table mem (some t)) (u : IsSpare mem (InUse (some t)) ls) where
    abbrev s : Tree3
    s = state mem ls (some t)

    abbrev n : KvLeafNode
    n = (place t key).2

    -- the leaf node at which the search ends, and what becomes of it
    put_in_leaf-put_at :
        (r : Option (Memory × KvLeafNode))
        → leaf_fill_slot_for_key n (ph before_table key) key value mem ≡ r
        → put_in_leaf before_table false key value t s ≡ put_at before_table false key value t n s r
    unfolding put_in_leaf
    put_in_leaf-put_at r e =
        ap
          (λ (m : KvLeafNode).
            put_at before_table false key value t m s
              (leaf_fill_slot_for_key m (ph before_table key) key value mem))
          (search_place t key)
        ∙ ap (put_at before_table false key value t n s) e

    put_filled :
        (i : ℕ)
        → slot_for_key leaf_keys none n (ph before_table key) key ≡ some i
        → i < leaf_keys
        → ((j : ℕ) → j ≢ i → matches (ph before_table) (ne_zero before_table) n j key ≡ false)
        → (hash_at n i ≡ 0) ⊎ (matches (ph before_table) (ne_zero before_table) n i key ≡ true)
        → IsUpdated s key (some value) (put_in_leaf before_table false key value t s)
    unfolding put_at
    put_filled i e h only free =
        subst (IsUpdated s key (some value))
          (sym (put_in_leaf-put_at _ (filled_at n (ph before_table key) key value mem i e)))
          (fill-IsChanged before_table mem ls t key value v u i h only free)

    put_split :
        slot_for_key leaf_keys none n (ph before_table key) key ≡ none
        → ((j : ℕ) → j < leaf_keys → hash_at n j ≢ 0)
        → ((j : ℕ) → matches (ph before_table) (ne_zero before_table) n j key ≡ false)
        → IsUpdated s key (some value) (put_in_leaf before_table false key value t s)
    unfolding put_at
    put_split e full fresh =
        subst (IsUpdated s key (some value))
          (sym (put_in_leaf-put_at _ (not_filled n (ph before_table key) key value mem e)))
          (split-IsChanged before_table mem ls t key value v u full fresh)

    put_in_leaf-IsUpdated :
        IsUpdated s key (some value) (put_in_leaf before_table false key value t s)
    put_in_leaf-IsUpdated =
        elim (slot_for_key-SlotFor (ph before_table) (ne_zero before_table) leaf_keys none n key) [
          | matched i e h m ↦
              put_filled i e h
                (λ j d.
                  elim (Bool-cases (matches (ph before_table) (ne_zero before_table) n j key)) [
                    | inl m' ↦ absurd (d ((v.leaf_nodes key).distinct j i key m' m))
                    | inr m' ↦ m'
                  ])
                (inr m)
          | emptied i e h z f ↦
              put_filled i e h
                (λ j d. unmatched_everywhere before_table mem n key (v.leaf_nodes key) f j) (inl z)
          | passed e full f ↦
              put_split e full (unmatched_everywhere before_table mem n key (v.leaf_nodes key) f)
        ]

  pub no_hash : (leaf j : ℕ) → hash_at (new_leaf_node leaf) j ≡ 0
  no_hash leaf j = get_or-replicate leaf_keys j 0

  -- A tree whose only leaf has no slot in use.
  abbrev pub empty_tree : ℕ → Top KvLeafNode
  empty_tree leaf = record { height = 0; node = new_leaf_node leaf }

  pub empty_tree-TreeValid :
      (mem : Memory) (leaf : ℕ)
      → IsLeaf mem leaf
      → IsEmpty mem leaf
      → TopValid before_table mem (some (empty_tree leaf))
  empty_tree-TreeValid mem leaf w empty = record {
    ordered = refl;
    leaf_nodes = λ q. record {
      leaf = w;
      hashes_length = length-replicate {A = ℕ} leaf_keys 0;
      keys_length = length-replicate {A = Bytes} leaf_keys [];
      hashed = λ i h. absurd (h (no_hash leaf i));
      distinct = λ i j q m m'. absurd (
          matches-in_use (ph before_table) (ne_zero before_table) (new_leaf_node leaf) i q m
            (no_hash leaf i));
      stored = λ i h. absurd (h (no_hash leaf i));
      cleared = λ i h. empty i;
    };
    in_range = λ q i h. absurd (h (no_hash leaf i));
    own = λ q q' e. refl;
  }

  pub new_unmatched :
      (leaf j : ℕ) (q : Bytes)
      → matches (ph before_table) (ne_zero before_table) (new_leaf_node leaf) j q ≡ false
  new_unmatched leaf j q =
      empty_unmatched (ph before_table) (ne_zero before_table) (new_leaf_node leaf) j q
        (no_hash leaf j)

  empty_tree-IsSpare :
      (mem : Memory) (ls : List ℕ) (r : Memory × List ℕ × ℕ)
      → IsAllocated mem (InUse none) r
      → IsSpare r.0 (InUse (some (empty_tree r.2))) r.1
  empty_tree-IsSpare mem ls r a = record {
    unused = Unused-map _ _ _ _ r.1 (λ l w. w) (λ l (q, e). inr e) a.unused;
    others = λ l h. let (w, o) = a.others l h in (w, elim o [ inl x ↦ absurd x | inr x ↦ inr x ]);
  }

  add_head_leaf-IsUpdated :
      (mem : Memory) (ls : List ℕ) (key value : Bytes)
      → IsSpare mem (InUse none) ls
      → let s = state mem ls none in
        IsUpdated s key (some value) (add_head_leaf before_table false key value s)
  unfolding add_head_leaf grow_top
  add_head_leaf-IsUpdated mem ls key value u =
      let a = allocate-IsAllocated mem (InUse none) ls (λ l x. absurd x) u in
      let leaf = (allocate mem ls).2 in
      let v = empty_tree-TreeValid (allocate mem ls).0 leaf a.leaf a.empty in
      let c =
        fill-IsChanged before_table (allocate mem ls).0 (allocate mem ls).1 (empty_tree leaf) key
          value v (empty_tree-IsSpare mem ls (allocate mem ls) a) 0 (omega arith)
          (λ j d. new_unmatched leaf j key) (inl (no_hash leaf 0)) in
      record {
        top_valid = c.top_valid;
        spare = c.spare;
        values = λ q.
            c.values q
            ∙ ap (λ (x : Option Bytes). if same key q then some value else x)
                (leaf_value-none (ph before_table) (ne_zero before_table) leaf_keys
                  (allocate mem ls).0 (new_leaf_node leaf) q (λ j. new_unmatched leaf j q));
      }

  put-IsUpdated_at :
      (mem : Memory) (ls : List ℕ) (t : Option (Top KvLeafNode)) (key value : Bytes)
      → TopValid before_table mem t
      → IsSpare mem (InUse t) ls
      → let s = state mem ls t in
        (s' : Tree3) × (put before_table false key value s ≡ returns (s', ok))
        × IsUpdated s key (some value) s'
  unfolding put check_outside_tx
  put-IsUpdated_at mem ls none key value v u = (_, refl, add_head_leaf-IsUpdated mem ls key value u)
  put-IsUpdated_at mem ls (some t) key value v u =
      (_, refl, put_in_leaf-IsUpdated mem ls t key value v u)

  -- In a valid state outside of a transaction, `put` returns `ok` with a valid state, in which the
  -- key has the value and all other keys have what they had.
  pub put-tree_value :
      (s : Tree3) (key value : Bytes)
      → IsValid before_table s
      → (s' : Tree3) × (put before_table false key value s ≡ returns (s', ok))
        × IsValid before_table s'
        × ((q : Bytes)
            → tree_value before_table s' q
              ≡ (if same key q then some value else tree_value before_table s q))
  unfolding tree_value
  put-tree_value s key value v =
      let (s', e, c) =
        put-IsUpdated_at s.leaves s.leaves_prealloc s.tree_top key value v.top_valid v.spare in
      (s', e, record { top_valid = c.top_valid; spare = c.spare }, c.values)

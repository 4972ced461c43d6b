-- ===== src/Tree3/Methods.antt =====
-- src/engines-experimental/tree3.cc: the methods of the engine. `in_tx` says whether the calling
-- thread is inside a libpmemobj transaction, where every method throws. A transaction of the engine
-- itself is one step: its failure is not modelled.
use pmemkv.Base.{
  ℕ, Bool, List, [], ◌∷◌, ◌++◌, Option, none, some, Bytes, length, set, ◌==◌, if◌then◌else◌,
}
use pmemkv.Engine.{KvCallback, ValueCallback}
use pmemkv.Robinhood.Shards.{check_outside_tx}
use pmemkv.Status.{Status, ok, not_found, stopped_by_cb, Outcome}
use pmemkv.Tree3.Leaves.{
  Buffer, KvLeaf, Memory, KvLeafNode, leaf_keys, slot_at, set_slot, new_leaf_node, allocate,
  find_slot, leaf_fill_specific_slot, leaf_fill_slot_for_key, leaf_split_full,
}
use pmemkv.Tree3.Nodes.{Top, kept, leaf_search, grow_top}
use pmemkv.Tree3.Pearson.{pearson_hash}

-- `leaves` are those of the linked list from `root_oid`.
pub record Tree3 : Type 0 where
  pub leaves : Memory
  pub leaves_prealloc : List ℕ
  pub tree_top : Option (Top KvLeafNode)

-- The slots in use of a leaf, from the last slot to the first.
unfoldable pub used_slots : KvLeaf → List Buffer
used_slots [] = []
used_slots (none ∷ slots) = used_slots slots
used_slots (some b ∷ slots) =
    let rest = used_slots slots in if b.ph == 0 then rest else rest ++ b ∷ []

-- the slots in use of all leaves, from the newest leaf to the oldest
unfoldable pub all_slots : Memory → List Buffer
unfolding used_slots
all_slots [] = []
all_slots (leaf ∷ mem) = all_slots mem ++ used_slots leaf

unfoldable pub call_each : {A : Type 0} → List Buffer → KvCallback A → A → A × Status
call_each [] callback arg = (arg, ok)
call_each (b ∷ bs) callback arg =
    let (ret, arg') = callback b.key b.value arg in
    let rest = call_each bs callback arg' in if ret == 0 then rest else (arg', stopped_by_cb)

module _ (before_table : ℕ → ℕ) (in_tx : Bool) where
  unfoldable pub count_all : Tree3 → Outcome (ℕ × Status)
  unfolding check_outside_tx all_slots
  count_all s = check_outside_tx in_tx (length (all_slots s.leaves), ok)

  unfoldable pub get_all : {A : Type 0} → KvCallback A → Tree3 → A → Outcome (A × Status)
  unfolding check_outside_tx all_slots call_each
  get_all callback s arg = check_outside_tx in_tx (call_each (all_slots s.leaves) callback arg)

  -- The leaf node of a key and the key's slot, as `exists`, `get` and `remove` look for them.
  unfoldable pub find_key : Tree3 → Bytes → Option (KvLeafNode × ℕ)
  unfolding leaf_search find_slot pearson_hash
  find_key s key = elim s.tree_top [
    | none ↦ none
    | some t ↦
        let n = leaf_search t.height t.node key in
        elim (find_slot leaf_keys n (pearson_hash before_table key) key) [
          | none ↦ none
          | some slot ↦ some (n, slot)
        ]
  ]

  unfoldable pub exists : Bytes → Tree3 → Outcome Status
  unfolding check_outside_tx find_key
  exists key s = check_outside_tx in_tx (elim (find_key s key) [ none ↦ not_found | some r ↦ ok ])

  -- `none` is the read of a value through a null pointer.
  unfoldable pub get :
      {A : Type 0} → Bytes → ValueCallback A → Tree3 → A → Outcome (Option (A × Status))
  unfolding check_outside_tx find_key
  get key callback s arg = check_outside_tx in_tx (elim (find_key s key) [
    | none ↦ some (arg, not_found)
    | some (n, slot) ↦ elim (slot_at s.leaves n.leaf slot) [
      | none ↦ none
      | some b ↦ some (callback b.value arg, ok)
    ]
  ])

  -- the first leaf of a tree that has none
  unfoldable pub add_head_leaf : Bytes → Bytes → Tree3 → Tree3
  unfolding allocate leaf_fill_specific_slot pearson_hash
  add_head_leaf key value s =
      let (mem, prealloc, leaf) = allocate s.leaves s.leaves_prealloc in
      let (mem', n) =
        leaf_fill_specific_slot (new_leaf_node leaf) (pearson_hash before_table key) key value 0
          mem in
      record {
        leaves = mem';
        leaves_prealloc = prealloc;
        tree_top = some (record { height = 0; node = n });
      }

  -- `put` at the leaf node of the key, with the result of `LeafFillSlotForKey`
  unfoldable pub put_at :
      Bytes → Bytes → Top KvLeafNode → KvLeafNode → Tree3 → Option (Memory × KvLeafNode) → Tree3
  unfolding leaf_split_full grow_top pearson_hash
  put_at key value t n s (some (mem, n')) = record s {
    leaves = mem;
    tree_top = some (grow_top t key (λ _. kept n'));
  }
  put_at key value t n s none =
      let r =
        leaf_split_full n (pearson_hash before_table key) key value s.leaves s.leaves_prealloc in
      record { leaves = r.0; leaves_prealloc = r.1; tree_top = some (grow_top t key (λ _. r.2)) }

  -- the leaf of the key, filled or split
  unfoldable pub put_in_leaf : Bytes → Bytes → Top KvLeafNode → Tree3 → Tree3
  unfolding leaf_search leaf_fill_slot_for_key put_at pearson_hash
  put_in_leaf key value t s =
      let n = leaf_search t.height t.node key in
      put_at key value t n s
        (leaf_fill_slot_for_key n (pearson_hash before_table key) key value s.leaves)

  unfoldable pub put : Bytes → Bytes → Tree3 → Outcome (Tree3 × Status)
  unfolding check_outside_tx add_head_leaf put_in_leaf
  put key value s = check_outside_tx in_tx (
    elim s.tree_top [ none ↦ add_head_leaf key value s | some t ↦ put_in_leaf key value t s ],
    ok,
  )

  -- `remove` at the key's leaf node and slot, if they were found
  unfoldable pub remove_at :
      Bytes → Top KvLeafNode → Tree3 → Option (KvLeafNode × ℕ) → Tree3 × Status
  unfolding grow_top
  remove_at key t s none = (s, not_found)
  remove_at key t s (some (n, slot)) =
      let n' = record n { hashes = set n.hashes slot 0; keys = set n.keys slot [] } in
      (
        record s {
          leaves = set_slot s.leaves n.leaf slot none;
          tree_top = some (grow_top t key (λ _. kept n'));
        },
        ok,
      )

  unfoldable pub remove : Bytes → Tree3 → Outcome (Tree3 × Status)
  unfolding check_outside_tx find_key remove_at
  remove key s =
      check_outside_tx in_tx
        (elim s.tree_top [ none ↦ (s, not_found) | some t ↦ remove_at key t s (find_key s key) ])

-- ===== src/Tree3/Leaves.antt =====
-- src/engines-experimental/tree3.h and tree3.cc: the leaves. `Memory` holds the persistent leaves in
-- the order in which they were made, and a persistent pointer is an index. Each new leaf becomes
-- the head of the linked list, so the next of a leaf is the one made before it. A key or value is
-- shorter than 2^32 bytes, so the casts of the sizes change nothing.
use pmemkv.Base.{
  ℕ, zero, suc, Bool, true, false, List, [], ◌∷◌, ◌++◌, Option, none, some, Bytes, length, get_or,
  set, replicate, ◌&&◌, ◌==◌, if◌then◌else◌,
}
use pmemkv.Tree3.{before, same}
use pmemkv.Tree3.Nodes.{Grown, split}

abbrev pub leaf_keys : ℕ
leaf_keys = 48

abbrev pub leaf_keys_midpoint : ℕ
leaf_keys_midpoint = 24

-- The buffer of a `KVSlot`: the hash, the key and the value with their sizes.
pub record Buffer : Type 0 where
  pub ph : ℕ
  pub key : Bytes
  pub value : Bytes

-- `none` is the null pointer of `empty()`.
abbrev pub KvSlot : Type 0
KvSlot = Option Buffer

-- the slots of a `KVLeaf`
abbrev pub KvLeaf : Type 0
KvLeaf = List KvSlot

abbrev pub Memory : Type 0
Memory = List KvLeaf

-- The volatile leaf node; `leaf` points to its persistent leaf.
pub record KvLeafNode : Type 0 where
  pub hashes : List ℕ
  pub keys : List Bytes
  pub leaf : ℕ

abbrev pub no_leaf : KvLeaf
no_leaf = replicate leaf_keys none

abbrev pub slot_at : Memory → ℕ → ℕ → KvSlot
slot_at mem leaf slot = get_or (get_or mem leaf no_leaf) slot none

abbrev pub hash_at : KvLeafNode → ℕ → ℕ
hash_at n slot = get_or n.hashes slot 0

abbrev pub key_at : KvLeafNode → ℕ → Bytes
key_at n slot = get_or n.keys slot []

abbrev pub set_slot : Memory → ℕ → ℕ → KvSlot → Memory
set_slot mem leaf slot kv = set mem leaf (set (get_or mem leaf no_leaf) slot kv)

-- `new KVLeafNode()` for a persistent leaf
abbrev pub new_leaf_node : ℕ → KvLeafNode
new_leaf_node leaf = record {
  hashes = replicate leaf_keys 0;
  keys = replicate leaf_keys [];
  leaf = leaf;
}

-- The first of the unused leaves, from the back of the vector, or a new one: the memory, the
-- unused leaves that remain, and the leaf.
unfoldable pub allocate : Memory → List ℕ → Memory × List ℕ × ℕ
allocate mem [] = (mem ++ no_leaf ∷ [], [], length mem)
allocate mem (leaf ∷ prealloc) = (mem, prealloc, leaf)

unfoldable pub leaf_fill_specific_slot :
    KvLeafNode → ℕ → Bytes → Bytes → ℕ → Memory → Memory × KvLeafNode
leaf_fill_specific_slot n hash key value slot mem = (
  set_slot mem n.leaf slot (some (record { ph = hash; key = key; value = value })),
  record n { hashes = set n.hashes slot hash; keys = set n.keys slot key },
)

-- The loops over the slots run from the last slot to the first, and `slots` is how many remain.

-- the slot with a key, as in `get`, `exists` and `remove`
unfoldable pub find_slot : ℕ → KvLeafNode → ℕ → Bytes → Option ℕ
find_slot zero n hash key = none
find_slot (suc slot) n hash key =
    let rest = find_slot slot n hash key in
    if hash_at n slot == hash && same (key_at n slot) key then some slot else rest

unfoldable pub empty_slot : ℕ → KvLeafNode → Option ℕ
empty_slot zero n = none
empty_slot (suc slot) n =
    let rest = empty_slot slot n in if hash_at n slot == 0 then some slot else rest

unfoldable pub leaf_fill_empty_slot : KvLeafNode → ℕ → Bytes → Bytes → Memory → Memory × KvLeafNode
unfolding empty_slot leaf_fill_specific_slot
leaf_fill_empty_slot n hash key value mem = elim (empty_slot leaf_keys n) [
  | none ↦ (mem, n)
  | some slot ↦ leaf_fill_specific_slot n hash key value slot mem
]

-- The scan of `LeafFillSlotForKey`: the slot of the key, or else the last empty slot it has met.
unfoldable pub slot_for_key : ℕ → Option ℕ → KvLeafNode → ℕ → Bytes → Option ℕ
slot_for_key zero last_empty n hash key = last_empty
slot_for_key (suc slot) last_empty n hash key =
    let passed = slot_for_key slot last_empty n hash key in
    let emptied = slot_for_key slot (some slot) n hash key in
    if hash_at n slot == 0
    then emptied
    else if hash_at n slot == hash && same (key_at n slot) key
    then some slot
    else passed

-- `none` is the result `false`.
unfoldable pub leaf_fill_slot_for_key :
    KvLeafNode → ℕ → Bytes → Bytes → Memory → Option (Memory × KvLeafNode)
unfolding slot_for_key leaf_fill_specific_slot
leaf_fill_slot_for_key n hash key value mem = elim (slot_for_key leaf_keys none n hash key) [
  | none ↦ none
  | some slot ↦ some (leaf_fill_specific_slot n hash key value slot mem)
]

-- `std::sort` by `compare`
unfoldable pub insert_sorted : Bytes → List Bytes → List Bytes
insert_sorted k [] = k ∷ []
insert_sorted k (j ∷ js) =
    let rest = insert_sorted k js in if before j k then j ∷ rest else k ∷ j ∷ js

unfoldable pub sort : List Bytes → List Bytes
unfolding insert_sorted
sort [] = []
sort (k ∷ ks) = insert_sorted k (sort ks)

-- The move of the slots above `split_key`: the memory, the old node and the new one.
unfoldable pub move_slots :
    ℕ → Bytes → Memory → KvLeafNode → KvLeafNode → Memory × KvLeafNode × KvLeafNode
move_slots zero split_key mem old new = (mem, old, new)
move_slots (suc slot) split_key mem old new =
    let swapped =
      set_slot (set_slot mem new.leaf slot (slot_at mem old.leaf slot)) old.leaf slot
        (slot_at mem new.leaf slot) in
    let new' = record new {
      hashes = set new.hashes slot (hash_at old slot);
      keys = set new.keys slot (key_at old slot);
    } in
    let old' = record old { hashes = set old.hashes slot 0; keys = set old.keys slot [] } in
    let moved = move_slots slot split_key swapped old' new' in
    let passed = move_slots slot split_key mem old new in
    if before split_key (key_at old slot) then moved else passed

-- the key at the midpoint of the keys of a full leaf and the new key
unfoldable pub split_key_of : KvLeafNode → Bytes → Bytes
unfolding sort
split_key_of n key = get_or (sort (n.keys ++ key ∷ [])) leaf_keys_midpoint []

-- The write of the new key into the new leaf, if it is above the split key, or else into the old
-- one.
unfoldable pub fill_half :
    Bool → Bytes → ℕ → Bytes → Bytes → Memory × KvLeafNode × KvLeafNode → Memory × Grown KvLeafNode
unfolding leaf_fill_empty_slot
fill_half true split_key hash key value (mem, old, new) =
    let (mem', new') = leaf_fill_empty_slot new hash key value mem in
    (mem', split old split_key new')
fill_half false split_key hash key value (mem, old, new) =
    let (mem', old') = leaf_fill_empty_slot old hash key value mem in
    (mem', split old' split_key new)

-- the move of the upper slots to the new leaf, and the write into one of the halves
unfoldable pub divide : KvLeafNode → ℕ → Bytes → Bytes → Memory → ℕ → Memory × Grown KvLeafNode
unfolding split_key_of move_slots fill_half
divide n hash key value mem new_leaf =
    let split_key = split_key_of n key in
    fill_half (before split_key key) split_key hash key value
      (move_slots leaf_keys split_key mem n (new_leaf_node new_leaf))

-- `LeafSplitFull` up to the update of the parents: the memory, the unused leaves, and the old leaf
-- and the new one with the key between them.
unfoldable pub leaf_split_full :
    KvLeafNode → ℕ → Bytes → Bytes → Memory → List ℕ → Memory × List ℕ × Grown KvLeafNode
unfolding allocate divide
leaf_split_full n hash key value mem prealloc =
    let a = allocate mem prealloc in let d = divide n hash key value a.0 a.2 in (d.0, a.1, d.1)

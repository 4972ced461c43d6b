-- ===== src/Tree3/Recovery.antt =====
-- src/engines-experimental/tree3.cc: `Recover`, which makes the volatile nodes from the persistent
-- leaves. A recovered leaf is appended behind the last one, so `InnerUpdateAfterSplit` goes up from
-- the last child at each level.
pub mod Origin
pub mod Listing
pub mod Finding
pub mod Ranges
pub mod Values
pub mod Asserts
pub mod Restart
use pmemkv.Base.{
  ℕ, zero, suc, List, [], ◌∷◌, ◌++◌, Option, none, some, Bytes, length, get_or, set, ◌==◌,
  if◌then◌else◌, Bool, true, not, ◌&&◌, ◌||◌,
}
use pmemkv.Tree3.{before}
use pmemkv.Tree3.Leaves.{KvSlot, KvLeaf, Memory, KvLeafNode, leaf_keys, no_leaf, new_leaf_node}
use pmemkv.Tree3.Methods.{Tree3}
use pmemkv.Tree3.Nodes.{Node, Top, Grown, split, child, update_inner, new_top}

pub record RecoveredLeaf : Type 0 where
  pub leafnode : KvLeafNode
  pub max_key : Bytes

-- The highest key so far; `none` stands for `empty_leaf`.
unfoldable pub higher : Option Bytes → Bytes → Option Bytes
higher none key = some key
higher (some max_key) key = if before max_key key then some key else some max_key

-- One slot of a leaf: its hash and its key, unless it is empty or its hash is 0.
unfoldable pub recover_slot : ℕ → KvSlot → KvLeafNode → Option Bytes → KvLeafNode × Option Bytes
unfolding higher
recover_slot slot none n max_key = (n, max_key)
recover_slot slot (some b) n max_key =
    let n' = record n { hashes = set n.hashes slot b.ph } in
    if b.ph == 0
    then (n', max_key)
    else (record n' { keys = set n.keys slot b.key }, higher max_key b.key)

-- The loop over the slots of a leaf, from the last to the first.
unfoldable pub recover_slots : ℕ → KvLeaf → KvLeafNode → Option Bytes → KvLeafNode × Option Bytes
unfolding recover_slot
recover_slots zero slots n max_key = (n, max_key)
recover_slots (suc slot) slots n max_key =
    let r = recover_slot slot (get_or slots slot none) n max_key in recover_slots slot slots r.0 r.1

-- The loop over the linked list, from the leaf made last to the first: the leaves without an entry
-- and the recovered ones.
unfoldable pub recover_leaves :
    ℕ → Memory → List ℕ → List RecoveredLeaf → List ℕ × List RecoveredLeaf
unfolding recover_slots
recover_leaves zero mem prealloc leaves = (prealloc, leaves)
recover_leaves (suc leaf) mem prealloc leaves =
    let (n, max_key) =
      recover_slots leaf_keys (get_or mem leaf no_leaf) (new_leaf_node leaf) none in
    elim max_key [
      | none ↦ recover_leaves leaf mem (leaf ∷ prealloc) leaves
      | some key ↦
          recover_leaves leaf mem prealloc (leaves ++ record { leafnode = n; max_key = key } ∷ [])
    ]

-- `leaves.sort` by the highest keys, which keeps the order of equal ones
unfoldable pub insert_by_max : RecoveredLeaf → List RecoveredLeaf → List RecoveredLeaf
insert_by_max l [] = l ∷ []
insert_by_max l (m ∷ ms) =
    let rest = insert_by_max l ms in if before m.max_key l.max_key then m ∷ rest else l ∷ m ∷ ms

unfoldable pub sort_by_max : List RecoveredLeaf → List RecoveredLeaf
unfolding insert_by_max
sort_by_max [] = []
sort_by_max (l ∷ ls) = insert_by_max l (sort_by_max ls)

module _ {L : Type 0} where
  -- A change of the last leaf, with the updates of its parents.
  unfoldable pub grow_last : (n : ℕ) → Node L n → (L → Grown L) → Grown (Node L n)
  unfolding update_inner child
  grow_last zero leaf change = change leaf
  grow_last (suc n) x change =
      let i = length x.rest in update_inner x i (grow_last n (child x.first x.rest i) change)

  unfoldable pub append_leaf : Top L → Bytes → L → Top L
  unfolding grow_last new_top
  append_leaf t split_key new_node =
      new_top t.height (grow_last t.height t.node (λ leaf. split leaf split_key new_node))

-- The loop over the leaves that remain, behind the one with the key `max_key`.
unfoldable pub append_leaves : Top KvLeafNode → Bytes → List RecoveredLeaf → Top KvLeafNode
unfolding append_leaf
append_leaves t max_key [] = t
append_leaves t max_key (l ∷ ls) = append_leaves (append_leaf t max_key l.leafnode) l.max_key ls

unfoldable pub recover_top : List RecoveredLeaf → Option (Top KvLeafNode)
unfolding append_leaves
recover_top [] = none
recover_top (l ∷ ls) = some (append_leaves (record { height = 0; node = l.leafnode }) l.max_key ls)

-- The assertion in `assert_invariants` that no key of an inner node is empty, in that loop: an update
-- puts the highest key of the leaf before into an inner node, and the other keys of the nodes that
-- it changes have passed the assertion when they came there.
unfoldable pub asserts_pass : List RecoveredLeaf → Bool
asserts_pass [] = true
asserts_pass (l ∷ []) = true
asserts_pass (l ∷ m ∷ ls) = let rest = asserts_pass (m ∷ ls) in not (length l.max_key == 0) && rest

-- `ndebug` tells a build without assertions; `none` is an assertion that fails.
unfoldable pub recover : Bool → Memory → Option Tree3
unfolding recover_leaves sort_by_max recover_top asserts_pass
recover ndebug mem =
    let (prealloc, leaves) = recover_leaves (length mem) mem [] [] in
    let sorted = sort_by_max leaves in
    let s : Tree3 = record {
      leaves = mem;
      leaves_prealloc = prealloc;
      tree_top = recover_top sorted;
    } in
    if ndebug || asserts_pass sorted then some s else none

-- ===== src/Tree3/Tests.antt =====
-- A tree with one leaf and an unused leaf, and the theorems at it.
use pmemkv.Base.{
  get_or, get_or-replicate, ◌⊎◌, zero, suc, inr, ℕ, zero, ◌≡◌, refl, false, List, [], ◌∷◌, none,
  some, Bytes, if◌then◌else◌, arith, inl, is_some,
}
use pmemkv.Engine.{ValueCallback, KvCallback}
use pmemkv.Status.{ok, not_found, returns}
use pmemkv.Tree3.{same, before}
use pmemkv.Tree3.Leaves.{
  KvSlot, Memory, KvLeafNode, leaf_keys, no_leaf, new_leaf_node, leaf_fill_specific_slot,
}
use pmemkv.Tree3.Methods.{Tree3, put, remove, get, exists}
use pmemkv.Tree3.Nodes.{Top, Grown, kept, split, grow_top}
use pmemkv.Tree3.Nodes.Growth.{TopOrdered, top_locate, locate, grow_top-locate}
use pmemkv.Tree3.Nodes.Chain.{grown_find}
use pmemkv.Tree3.Nodes.Order.{inside}
use pmemkv.Tree3.Put.{
  state, empty_tree, empty_tree-TreeValid, new_unmatched, no_hash, put-tree_value,
}
use pmemkv.Tree3.Recovery.{recover}
use pmemkv.Tree3.Recovery.Asserts.{EmptyKeyAside}
use pmemkv.Tree3.Recovery.Restart.{recover-tree_value}
use pmemkv.Tree3.Sessions.{
  Request, put_request, remove_request, restart, updates, session, first, get-session,
}
use pmemkv.Tree3.Remove.{remove-tree_value}
use pmemkv.Tree3.Slots.{IsLeaf}
use pmemkv.Tree3.States.{InUse, ph, IsValid, tree_value, get-tree_value}
use pmemkv.Tree3.Unused.{IsSpare, OthersEmpty}
use pmemkv.Tree3.Updates.{fill-IsChanged}

abbrev zeros : ℕ → ℕ
zeros n = 0

abbrev mem : Memory
mem = no_leaf ∷ no_leaf ∷ []

first-IsLeaf : IsLeaf mem 0
first-IsLeaf = record { allocated = omega arith; slots_length = refl }

second-IsLeaf : IsLeaf mem 1
second-IsLeaf = record { allocated = omega arith; slots_length = refl }

no_slot : (j : ℕ) → get_or no_leaf j none ≡ none
no_slot j = get_or-replicate {A = KvSlot} leaf_keys j none

all_empty : OthersEmpty mem (InUse (some (empty_tree zeros 0)))
all_empty zero h = (first-IsLeaf, inl ([], refl))
all_empty (suc zero) h = (second-IsLeaf, inr no_slot)
all_empty (suc (suc l)) h = absurd (omega arith)

spare : IsSpare mem (InUse (some (empty_tree zeros 0))) (1 ∷ [])
spare = record {
  unused = (second-IsLeaf, (λ (q, e). omega (arith, e)), tt, tt);
  others = all_empty;
}

-- the write of the key 7 with the value 70 into the last slot
abbrev written : Memory × KvLeafNode
written = leaf_fill_specific_slot (new_leaf_node 0) (ph zeros (7 ∷ [])) (7 ∷ []) (70 ∷ []) 47 mem

abbrev one : Tree3
one = state written.0 (1 ∷ []) (some (grow_top (empty_tree zeros 0) (7 ∷ []) (λ _. kept written.1)))

one-IsValid : IsValid zeros one
one-IsValid =
    let c =
      fill-IsChanged zeros mem (1 ∷ []) (empty_tree zeros 0) (7 ∷ []) (70 ∷ [])
        (empty_tree-TreeValid zeros mem 0 first-IsLeaf no_slot) spare 47 (omega arith)
        (λ j d. new_unmatched zeros 0 j (7 ∷ [])) (inl (no_hash zeros 0 47)) in
    record { top_valid = c.top_valid; spare = c.spare }

put-tree_value_example :
    (s' : Tree3) × (put zeros false (7 ∷ []) (71 ∷ []) one ≡ returns (s', ok))
    × IsValid zeros s'
    × ((q : Bytes)
        → tree_value zeros s' q
          ≡ (if same (7 ∷ []) q then some (71 ∷ []) else tree_value zeros one q))
put-tree_value_example = put-tree_value zeros one (7 ∷ []) (71 ∷ []) one-IsValid

remove-tree_value_example :
    (s' : Tree3) × (remove zeros false (7 ∷ []) one
      ≡ returns (s', if is_some (tree_value zeros one (7 ∷ [])) then ok else not_found))
    × IsValid zeros s'
    × ((q : Bytes)
        → tree_value zeros s' q ≡ (if same (7 ∷ []) q then none else tree_value zeros one q))
remove-tree_value_example = remove-tree_value zeros one (7 ∷ []) one-IsValid

-- a callback that collects the values
abbrev append_to : Bytes → List Bytes → List Bytes
append_to value values = value ∷ values

get-tree_value_example :
    (get zeros false (7 ∷ []) append_to one []
      ≡ returns (
          some (elim (tree_value zeros one (7 ∷ [])) [
            | none ↦ ([], not_found)
            | some v ↦ (append_to v [], ok)
          ])))
    × (exists zeros false (7 ∷ []) one
        ≡ returns (if is_some (tree_value zeros one (7 ∷ [])) then ok else not_found))
get-tree_value_example = get-tree_value zeros one (7 ∷ []) append_to [] one-IsValid

-- a top with two leaves
abbrev two : Top ℕ
two = record { height = 1; node = record { first = 10; rest = (5 ∷ [], 11) ∷ [] } }

abbrev cut : Grown ℕ
cut = split 11 (8 ∷ []) 12

grow_top-locate_example :
    TopOrdered ℕ (grow_top two (6 ∷ []) (λ _. cut))
    × ((q : Bytes)
        → top_locate ℕ (grow_top two (6 ∷ []) (λ _. cut)) q ≡ (
            if inside (some (5 ∷ [])) none q
            then grown_find (locate ℕ zero) (some (5 ∷ [])) none cut q
            else top_locate ℕ two q))
unfolding pmemkv.Tree3.at_most pmemkv.Tree3.before
grow_top-locate_example = grow_top-locate ℕ two (6 ∷ []) (λ _. cut) (refl, refl) (refl, refl)

-- a callback that collects the keys and asks to stop at the key 8
abbrev keys_before_8 : KvCallback (List Bytes)
keys_before_8 key value keys = if same key (8 ∷ []) then (1, keys) else (0, key ∷ keys)

abbrev nine : Bytes
nine = 9 ∷ []

abbrev four : Bytes
four = 4 ∷ []

recover-tree_value_example :
    ((s' : Tree3) × (recover false one.leaves ≡ some s')
      × IsValid zeros s'
      × ((q : Bytes) → tree_value zeros s' q ≡ tree_value zeros one q))
    ⊎ ((recover false one.leaves ≡ none) × (false ≡ false) × EmptyKeyAside (tree_value zeros one))
recover-tree_value_example = recover-tree_value zeros false one one-IsValid

abbrev requests : List Request
requests =
    put_request nine (90 ∷ []) ∷ put_request four (40 ∷ []) ∷ restart ∷ remove_request nine ∷ []

get-session_example :
    (s : Tree3) × (session zeros false (restart ∷ requests) first ≡ returns (some s))
    × ((q : Bytes) (callback : ValueCallback (List Bytes)) (arg : List Bytes)
        → get zeros false q callback s arg
          ≡ returns (
              some (elim (updates requests (λ _. none) q) [
                | none ↦ (arg, not_found)
                | some v ↦ (callback v arg, ok)
              ])))
get-session_example = get-session zeros false requests (inr ((λ h. cc), ((λ h. cc), tt)))

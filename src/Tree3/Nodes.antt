-- ===== src/Tree3/Nodes.antt =====
-- src/engines-experimental/tree3.cc: `LeafSearch` and `InnerUpdateAfterSplit`, over any type of
-- leaves. All leaves of a tree are equally deep, for only the top grows; `Node A n` has `n` levels
-- of inner nodes. `keycount` is the length of `rest`: an entry of it is `keys[i]` with
-- `children[i + 1]`. The parents of a node are the nodes on the way down to it.
pub mod Order
pub mod Chain
pub mod Growth
use pmemkv.Base.{ℕ, zero, suc, Bool, List, [], ◌∷◌, Bytes, length, take, drop, leb, if◌then◌else◌}
use pmemkv.Tree3.{at_most}

abbrev pub inner_keys : ℕ
inner_keys = 4

abbrev pub inner_keys_midpoint : ℕ
inner_keys_midpoint = 2

pub record Inner (A : Type 0) : Type 0 where
  pub first : A
  pub rest : List (Bytes × A)

abbrev pub Node : Type 0 → ℕ → Type 0
Node A zero = A
Node A (suc n) = Inner (Node A n)

-- `tree_top` with the number of levels below it
pub record Top (L : Type 0) : Type 0 where
  pub height : ℕ
  pub node : Node L height

-- A node after a change below it: alone, or with the new node that it was split into and the key
-- between the two.
pub data Grown (A : Type 0) : Type 0 where
  kept : A → Grown A
  split : A → Bytes → A → Grown A

module _ {A : Type 0} where
  -- `children[i]`, where the first of them stands apart; behind the last one, the last.
  unfoldable pub child : A → List (Bytes × A) → ℕ → A
  child c r zero = c
  child c [] (suc i) = c
  child c ((k, d) ∷ r) (suc i) = child d r i

  -- the children, with the one at `i` changed in place
  unfoldable pub set_child : A → List (Bytes × A) → ℕ → A → Inner A
  set_child c r zero c' = record { first = c'; rest = r }
  set_child c [] (suc i) c' = record { first = c'; rest = [] }
  set_child c ((k, d) ∷ r) (suc i) c' =
      let x = set_child d r i c' in record { first = c; rest = (k, x.first) ∷ x.rest }

  -- the index at which the loop of `LeafSearch` leaves a node
  unfoldable pub route : List (Bytes × A) → Bytes → ℕ
  route [] key = 0
  route ((k, d) ∷ r) key = if at_most key k then 0 else suc (route r key)

  -- where `split_key` is inserted: behind the keys that are at most it
  unfoldable pub position : List (Bytes × A) → Bytes → ℕ
  position [] split_key = 0
  position ((k, d) ∷ r) split_key = if at_most k split_key then suc (position r split_key) else 0

  unfoldable pub insert_at : ℕ → Bytes × A → List (Bytes × A) → List (Bytes × A)
  insert_at zero e r = e ∷ r
  insert_at (suc i) e [] = e ∷ []
  insert_at (suc i) e (f ∷ r) = f ∷ insert_at i e r

  -- the split of an inner node at its midpoint
  unfoldable pub split_inner : Inner A → Grown (Inner A)
  split_inner x = elim (drop inner_keys_midpoint x.rest) [
    | [] ↦ kept x
    | e ∷ upper ↦
        split (record x { rest = take inner_keys_midpoint x.rest }) e.0
          (record { first = e.1; rest = upper })
  ]

  -- One level of `InnerUpdateAfterSplit`, in the parent of the node at index `i`.
  unfoldable pub update_inner : Inner A → ℕ → Grown A → Grown (Inner A)
  unfolding set_child position insert_at split_inner
  update_inner x i (kept c) = kept (set_child x.first x.rest i c)
  update_inner x i (split c split_key new_node) =
      let y = set_child x.first x.rest i c in
      let z = record y {
        rest = insert_at (position y.rest split_key) (split_key, new_node) y.rest;
      } in
      if leb (length z.rest) inner_keys then kept z else split_inner z

module _ {L : Type 0} where
  unfoldable pub leaf_search : (n : ℕ) → Node L n → Bytes → L
  unfolding child route
  leaf_search zero leaf key = leaf
  leaf_search (suc n) x key = leaf_search n (child x.first x.rest (route x.rest key)) key

  -- A change of the leaf of a key, with the updates of its parents from the bottom to the top.
  unfoldable pub grow : (n : ℕ) → Node L n → Bytes → (L → Grown L) → Grown (Node L n)
  unfolding update_inner child route
  grow zero leaf key change = change leaf
  grow (suc n) x key change =
      let i = route x.rest key in update_inner x i (grow n (child x.first x.rest i) key change)

  -- A new top over the two halves where the old top was split.
  unfoldable pub new_top : (n : ℕ) → Grown (Node L n) → Top L
  new_top n (kept x) = record { height = n; node = x }
  new_top n (split a split_key b) = record {
    height = suc n;
    node = record { first = a; rest = (split_key, b) ∷ [] };
  }

  unfoldable pub grow_top : Top L → Bytes → (L → Grown L) → Top L
  unfolding grow new_top
  grow_top t key change = new_top t.height (grow t.height t.node key change)

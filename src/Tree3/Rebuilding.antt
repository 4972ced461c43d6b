-- ===== src/Tree3/Rebuilding.antt =====
-- Proofs about src/engines-experimental/tree3.cc: the tree that `Recover` makes of the leaves.
use mathlib.Core.Path.{subst}
use pmemkv.Base.{
  ℕ, zero, suc, ◌≡◌, ◌∙◌, refl, sym, ap, true, false, List, [], ◌∷◌, none, some, Bytes, length,
  is_some, if◌then◌else◌, Bool-cases, inl, inr,
}
use pmemkv.Tree3.{before, at_most}
use pmemkv.Tree3.Leaves.{KvLeafNode, insert_sorted, sort}
use pmemkv.Tree3.Nodes.{
  Node, Top, Grown, split, child, route, update_inner, grow, grow_top, new_top,
}
use pmemkv.Tree3.Nodes.Chain.{chain_find, chain_find-child, child_low, child_high}
use pmemkv.Tree3.Nodes.Growth.{
  locate, IsOrdered, IsOrdered-less, TopOrdered, top_locate, grow_top-locate,
}
use pmemkv.Tree3.Nodes.Order.{
  Bound, above, less_bounds, at_most-eq, above_widen, above_of_less_bounds,
}
use pmemkv.Tree3.Recovery.{
  RecoveredLeaf, insert_by_max, sort_by_max, grow_last, append_leaf, append_leaves, recover_top,
}
use pmemkv.Tree3.Sorting.{Ascends, AllDifferent, sort-Ascends}
use pmemkv.Tree3.Validity.{Place, place}

module _ (L : Type 0) where
  -- Below a bound every leaf has one.
  chain_bounded :
      (n : ℕ) (b q : Bytes)
      → ((lo : Bound) (k : Bytes) (x : Node L n) → is_some (locate L n lo (some k) x q).1 ≡ true)
      → (lo : Bound) (c : Node L n) (r : List (Bytes × Node L n))
      → is_some (chain_find (locate L n) lo (some b) c r q).1 ≡ true
  chain_bounded n b q f lo c [] = f lo b c
  chain_bounded n b q f lo c ((k, d) ∷ r) = elim (Bool-cases (at_most q k)) [
    | inl h ↦ rw h (f lo k c)
    | inr h ↦ rw h (chain_bounded n b q f (some k) d r)
  ]

  bounded :
      (n : ℕ) (lo : Bound) (b : Bytes) (x : Node L n) (q : Bytes)
      → is_some (locate L n lo (some b) x q).1 ≡ true
  bounded zero lo b x q = refl
  bounded (suc n) lo b x q = chain_bounded n b q (λ l k y. bounded n l k y q) lo x.first x.rest

  -- The search for a key without a bound above takes the last child.
  route_last :
      (n : ℕ) (lo : Bound) (c : Node L n) (r : List (Bytes × Node L n)) (q : Bytes)
      → (chain_find (locate L n) lo none c r q).1 ≡ none
      → (route r q ≡ length r) × (child_high none r q ≡ none)
  unfolding route
  route_last n lo c [] q e = (refl, refl)
  route_last n lo c ((k, d) ∷ r) q e = elim (Bool-cases (at_most q k)) [
    | inl h ↦
        let e' : (locate L n lo (some k) c q).1 ≡ none = rw h at e in
        let f : is_some {A = Bytes} none ≡ true = rw e' at (bounded n lo k c q) in cc
    | inr h ↦
        let rest = route_last n (some k) d r q (rw h at e) in rw (h, rest.0, rest.1) (refl, refl)
  ]

  grow_last-grow :
      (n : ℕ) (lo : Bound) (x : Node L n) (q : Bytes) (change : L → Grown L)
      → (locate L n lo none x q).1 ≡ none
      → grow_last n x change ≡ grow n x q change
  unfolding grow_last grow
  grow_last-grow zero lo x q change e = refl
  grow_last-grow (suc n) lo x q change e =
      let (same_route, no_high) = route_last n lo x.first x.rest q e in
      let there =
        chain_find-child (locate L n) (IsOrdered L n) (IsOrdered-less L n) lo none x.first x.rest
          q in
      let e' : (locate L n (child_low lo x.rest q) none (child x.first x.rest (route x.rest q)) q).1
          ≡ none =
        rw (there, no_high) at e in
      ap (λ (i : ℕ). update_inner x i (grow_last n (child x.first x.rest i) change))
        (sym same_route)
      ∙ ap (update_inner x (route x.rest q)) (
          grow_last-grow n (child_low lo x.rest q) (child x.first x.rest (route x.rest q)) q change
            e')

  -- The last leaf is the one that the search for a key without a bound above ends at.
  append_leaf-grow_top :
      (t : Top L) (s q : Bytes) (new_node : L)
      → (top_locate L t q).1 ≡ none
      → append_leaf t s new_node ≡ grow_top t q (λ leaf. split leaf s new_node)
  unfolding append_leaf grow_top
  append_leaf-grow_top t s q new_node e =
      ap (new_top t.height)
        (grow_last-grow t.height none t.node q (λ leaf. split leaf s new_node) e)

-- the leaves in the order of their highest keys, without a gap above the last
abbrev pub leaf_for : Bound → KvLeafNode → Bytes → List RecoveredLeaf → Bytes → Place
leaf_for lo n max_key [] q = (lo, none, n)
leaf_for lo n max_key (l ∷ ls) q =
    if at_most q max_key
    then (lo, some max_key, n)
    else leaf_for (some max_key) l.leafnode l.max_key ls q

abbrev pub IsAscending : Bound → Bytes → List RecoveredLeaf → Type 0
IsAscending lo max_key [] = less_bounds lo (some max_key) ≡ true
IsAscending lo max_key (l ∷ ls) =
    (less_bounds lo (some max_key) ≡ true) × IsAscending (some max_key) l.max_key ls

pub IsAscending-less :
    (lo : Bound) (m : Bytes) (ls : List RecoveredLeaf)
    → IsAscending lo m ls
    → less_bounds lo (some m) ≡ true
IsAscending-less lo m [] a = a
IsAscending-less lo m (l ∷ ls) a = a.0

-- A leaf that is appended gets the keys above the highest key of the last one.
append_leaf-place :
    (t : Top KvLeafNode) (lo : Bound) (n : KvLeafNode) (m s : Bytes) (next : KvLeafNode)
    → TopOrdered KvLeafNode t
    → ((q : Bytes) → above lo q ≡ true → place t q ≡ (lo, none, n))
    → less_bounds lo (some m) ≡ true
    → above lo s ≡ true
    → TopOrdered KvLeafNode (append_leaf t m next)
      × ((q : Bytes)
          → place (append_leaf t m next) q ≡ (
              if above lo q
              then (if at_most q m then (lo, some m, n) else (some m, none, next))
              else place t q))
append_leaf-place t lo n m s next o last less up =
    let p = last s up in
    let e = append_leaf-grow_top KvLeafNode t m s next (ap (λ (x : Place). x.1) p) in
    let g = grow_top-locate KvLeafNode t s (λ leaf. split leaf m next) o (rw p (less, refl)) in
    rw e (
      g.0,
      λ q. g.1 q ∙ rw p (elim (Bool-cases (above lo q)) [ inl h ↦ rw h refl | inr h ↦ rw h refl ]),
    )

append_leaves-place :
    (ls : List RecoveredLeaf) (t : Top KvLeafNode) (lo : Bound) (n : KvLeafNode) (m : Bytes)
    → TopOrdered KvLeafNode t
    → ((q : Bytes) → above lo q ≡ true → place t q ≡ (lo, none, n))
    → IsAscending lo m ls
    → TopOrdered KvLeafNode (append_leaves t m ls)
      × ((q : Bytes)
          → place (append_leaves t m ls) q
            ≡ (if above lo q then leaf_for lo n m ls q else place t q))
unfolding append_leaves
append_leaves-place [] t lo n m o last a =
    (o, λ q. elim (Bool-cases (above lo q)) [ inl h ↦ rw h (last q h) | inr h ↦ rw h refl ])
append_leaves-place (l ∷ ls) t lo n m o last (less, a) =
    let one =
      append_leaf-place t lo n m m l.leafnode o last less (above_of_less_bounds lo m less) in
    let t1 = append_leaf t m l.leafnode in
    let last1 : (q : Bytes) → above (some m) q ≡ true → place t1 q ≡ (some m, none, l.leafnode) =
      λ q h.
        let e : at_most q m ≡ false = at_most-eq q m ∙ rw h refl in
        one.1 q ∙ rw (above_widen lo m q less h, e) refl in
    let rest = append_leaves-place ls t1 (some m) l.leafnode l.max_key one.0 last1 a in
    (
      rest.0,
      λ q. rest.1 q ∙ elim (Bool-cases (before m q)) [
        | inl h ↦
            let e : at_most q m ≡ false = at_most-eq q m ∙ rw h refl in
            rw (h, above_widen lo m q less h, e) refl
        | inr h ↦
            let e : at_most q m ≡ true = at_most-eq q m ∙ rw h refl in
            rw (h, e) (one.1 q ∙ rw e refl)
      ],
    )

abbrev pub max_keys : List RecoveredLeaf → List Bytes
max_keys [] = []
max_keys (l ∷ ls) = l.max_key ∷ max_keys ls

max_keys-insert_by_max :
    (l : RecoveredLeaf) (ls : List RecoveredLeaf)
    → max_keys (insert_by_max l ls) ≡ insert_sorted l.max_key (max_keys ls)
unfolding insert_by_max insert_sorted
max_keys-insert_by_max l [] = refl
max_keys-insert_by_max l (m ∷ ms) = elim (Bool-cases (before m.max_key l.max_key)) [
  | inl h ↦ rw h (ap (λ (ks : List Bytes). m.max_key ∷ ks) (max_keys-insert_by_max l ms))
  | inr h ↦ rw h refl
]

max_keys-sort_by_max : (ls : List RecoveredLeaf) → max_keys (sort_by_max ls) ≡ sort (max_keys ls)
unfolding sort_by_max sort
max_keys-sort_by_max [] = refl
max_keys-sort_by_max (l ∷ ls) =
    max_keys-insert_by_max l (sort_by_max ls)
    ∙ ap (insert_sorted l.max_key) (max_keys-sort_by_max ls)

IsAscending-of_keys :
    (lo : Bound) (m : Bytes) (ls : List RecoveredLeaf)
    → less_bounds lo (some m) ≡ true
    → Ascends (m ∷ max_keys ls)
    → IsAscending lo m ls
IsAscending-of_keys lo m [] less a = less
IsAscending-of_keys lo m (l ∷ ls) less a =
    (less, IsAscending-of_keys (some m) l.max_key ls a.0.0 a.1)

-- Leaves whose highest keys ascend become a tree in order, in which a key ends in the
-- first leaf whose highest key is at least it, or else in the last leaf.
recover_top-leaf_for :
    (l : RecoveredLeaf) (ls : List RecoveredLeaf)
    → IsAscending none l.max_key ls
    → (t : Top KvLeafNode) × (recover_top (l ∷ ls) ≡ some t)
      × TopOrdered KvLeafNode t
      × ((q : Bytes) → place t q ≡ leaf_for none l.leafnode l.max_key ls q)
unfolding recover_top
recover_top-leaf_for l ls a =
    let r =
      append_leaves-place ls (record { height = 0; node = l.leafnode }) none l.leafnode l.max_key
        refl (λ q h. refl) a in
    (_, refl, r.0, r.1)

pub sort_by_max-IsAscending :
    (leaves : List RecoveredLeaf) (l : RecoveredLeaf) (ls : List RecoveredLeaf)
    → AllDifferent (max_keys leaves)
    → sort_by_max leaves ≡ l ∷ ls
    → IsAscending none l.max_key ls
sort_by_max-IsAscending leaves l ls d e =
    let up : Ascends (max_keys (l ∷ ls)) =
      subst (λ (x : List RecoveredLeaf). Ascends (max_keys x)) e
        (subst Ascends (sym (max_keys-sort_by_max leaves)) (sort-Ascends (max_keys leaves) d)) in
    IsAscending-of_keys none l.max_key ls refl up

-- Recovered leaves with different highest keys, sorted by these, become a tree in order, in which a
-- key ends in the first leaf whose highest key is at least it, or else in the last leaf.
pub recover_top-sort_by_max :
    (leaves : List RecoveredLeaf) (l : RecoveredLeaf) (ls : List RecoveredLeaf)
    → AllDifferent (max_keys leaves)
    → sort_by_max leaves ≡ l ∷ ls
    → (t : Top KvLeafNode) × (recover_top (sort_by_max leaves) ≡ some t)
      × TopOrdered KvLeafNode t
      × ((q : Bytes) → place t q ≡ leaf_for none l.leafnode l.max_key ls q)
recover_top-sort_by_max leaves l ls d e =
    rw e (recover_top-leaf_for l ls (sort_by_max-IsAscending leaves l ls d e))

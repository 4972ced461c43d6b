-- ===== src/Tree3/Nodes/Growth.antt =====
-- Proofs about src/engines-experimental/tree3.cc: the search for a leaf, and the change of a leaf
-- with the updates of its parents.
use pmemkv.Base.{
  ℕ, zero, suc, ◌≡◌, refl, sym, ◌∙◌, true, List, [], ◌∷◌, Bytes, length, drop, leb, if◌then◌else◌,
  Bool-cases, inl, inr, none,
}
use pmemkv.Tree3.Nodes.{
  Inner, Node, Grown, kept, split, child, route, leaf_search, grow, split_inner, update_inner,
  inner_keys, inner_keys_midpoint, Top, grow_top, new_top,
}
use pmemkv.Tree3.Nodes.Chain.{
  chain_find, grown_find, Chain, GrownOrdered, child_low, child_high, updated, Chain-less,
  child-Ordered, child_inside, chain_find-child, Chain-Updates, Chain-cut, child_nested,
  chain_find-inside,
}
use pmemkv.Tree3.Nodes.Order.{Bound, inside, less_bounds}

module _ (L : Type 0) where
  -- The leaf at which the search for a key ends, with the range of the keys that end there.
  abbrev pub locate : (n : ℕ) → Bound → Bound → Node L n → Bytes → Bound × Bound × L
  locate zero lo hi leaf q = (lo, hi, leaf)
  locate (suc n) lo hi x q = chain_find (locate n) lo hi x.first x.rest q

  -- The keys of the inner nodes ascend from child to child.
  abbrev pub IsOrdered : (n : ℕ) → Bound → Bound → Node L n → Type 0
  IsOrdered zero lo hi leaf = less_bounds lo hi ≡ true
  IsOrdered (suc n) lo hi x = Chain (IsOrdered n) lo hi x.first x.rest

  pub IsOrdered-less :
      (n : ℕ) (lo hi : Bound) (x : Node L n) → IsOrdered n lo hi x → less_bounds lo hi ≡ true
  IsOrdered-less zero lo hi leaf o = o
  IsOrdered-less (suc n) lo hi x o =
      Chain-less (locate n) (IsOrdered n) (IsOrdered-less n) lo hi x.first x.rest o

  pub locate-leaf_search :
      (n : ℕ) (lo hi : Bound) (x : Node L n) (q : Bytes)
      → (locate n lo hi x q).2 ≡ leaf_search n x q
  unfolding leaf_search
  locate-leaf_search zero lo hi leaf q = refl
  locate-leaf_search (suc n) lo hi x q =
      rw (chain_find-child (locate n) (IsOrdered n) (IsOrdered-less n) lo hi x.first x.rest q) (
        locate-leaf_search n (child_low lo x.rest q) (child_high hi x.rest q)
          (child x.first x.rest (route x.rest q)) q)

  pub locate-inside :
      (n : ℕ) (lo hi : Bound) (x : Node L n) (q : Bytes)
      → inside lo hi q ≡ true
      → inside (locate n lo hi x q).0 (locate n lo hi x q).1 q ≡ true
  locate-inside zero lo hi leaf q i = i
  locate-inside (suc n) lo hi x q i =
      rw (chain_find-child (locate n) (IsOrdered n) (IsOrdered-less n) lo hi x.first x.rest q) (
        locate-inside n (child_low lo x.rest q) (child_high hi x.rest q)
          (child x.first x.rest (route x.rest q)) q
          (child_inside (locate n) (IsOrdered n) (IsOrdered-less n) lo hi x.rest q i))

  -- The range of a leaf lies within the bounds of every node above it.
  locate_nested :
      (n : ℕ) (lo hi : Bound) (x : Node L n) (key q : Bytes)
      → IsOrdered n lo hi x
      → inside (locate n lo hi x key).0 (locate n lo hi x key).1 q ≡ true
      → inside lo hi q ≡ true
  locate_nested zero lo hi x key q o i = i
  locate_nested (suc n) lo hi x key q o i =
      child_nested (locate n) (IsOrdered n) (IsOrdered-less n) lo hi x.first x.rest key q o (
        locate_nested n (child_low lo x.rest key) (child_high hi x.rest key)
          (child x.first x.rest (route x.rest key)) key q
          (child-Ordered (locate n) (IsOrdered n) (IsOrdered-less n) lo hi x.first x.rest key o)
          (rw
            (chain_find-child (locate n) (IsOrdered n) (IsOrdered-less n) lo hi x.first x.rest key)
            at i))

  -- `G` is what a node is after a change of the leaf of `key` into `g`: the keys of that leaf end
  -- in `g`, all other keys where they ended before.
  abbrev pub Grows :
      (n : ℕ) → Bound → Bound → Node L n → Bytes → Grown L → Grown (Node L n) → Type 0
  Grows n lo hi x key g G =
      let here = locate n lo hi x key in
      GrownOrdered (IsOrdered n) lo hi G
      × ((q : Bytes)
          → inside lo hi q ≡ true
          → grown_find (locate n) lo hi G q ≡ (
              if inside here.0 here.1 q
              then grown_find (locate zero) here.0 here.1 g q
              else locate n lo hi x q))

  -- A node with too many keys is split, and its order and its leaves stay.
  split_inner_same :
      (n : ℕ) (lo hi : Bound) (y : Inner (Node L n))
      → IsOrdered (suc n) lo hi y
      → GrownOrdered (IsOrdered (suc n)) lo hi (split_inner y)
        × ((q : Bytes)
            → grown_find (locate (suc n)) lo hi (split_inner y) q ≡ locate (suc n) lo hi y q)
  unfolding split_inner
  split_inner_same n lo hi y o = go (drop inner_keys_midpoint y.rest) refl
    where
      go :
          (upper : List (Bytes × Node L n))
          → drop inner_keys_midpoint y.rest ≡ upper
          → GrownOrdered (IsOrdered (suc n)) lo hi (split_inner y)
            × ((q : Bytes)
                → grown_find (locate (suc n)) lo hi (split_inner y) q ≡ locate (suc n) lo hi y q)
      go [] e = rw (e, split_inner) (o, λ q. refl)
      go ((k, d) ∷ upper) e =
          let cut =
            Chain-cut (locate n) (IsOrdered n) (IsOrdered-less n) inner_keys_midpoint lo hi y.first
              y.rest k d upper o e in
          rw (e, split_inner) ((cut.0, cut.1), λ q. rw (cut.2 q) refl)

  -- The keys of a node after the update for its child at the route of `key`.
  update_inner_same :
      (n : ℕ) (lo hi : Bound) (x : Inner (Node L n)) (i : ℕ) (g : Grown (Node L n))
      → let y = updated x.first x.rest i g in
        IsOrdered (suc n) lo hi y
        → GrownOrdered (IsOrdered (suc n)) lo hi (update_inner x i g)
          × ((q : Bytes)
              → grown_find (locate (suc n)) lo hi (update_inner x i g) q ≡ locate (suc n) lo hi y q)
  unfolding update_inner
  update_inner_same n lo hi x i (kept c) o = (o, λ q. refl)
  update_inner_same n lo hi x i (split c s d) o =
      let z = updated x.first x.rest i (split c s d) in
      elim (Bool-cases (leb (length z.rest) inner_keys)) [
        | inl fits ↦ rw fits (o, λ q. refl)
        | inr full ↦ rw full (split_inner_same n lo hi z o)
      ]

  -- A change of the leaf of a key, with the updates of its parents.
  pub grow-Grows :
      (n : ℕ) (lo hi : Bound) (x : Node L n) (key : Bytes) (change : L → Grown L)
      → IsOrdered n lo hi x
      → let here = locate n lo hi x key in
        GrownOrdered (IsOrdered zero) here.0 here.1 (change here.2)
        → Grows n lo hi x key (change here.2) (grow n x key change)
  unfolding grow
  grow-Grows zero lo hi x key change o w = (w, λ q i. rw i refl)
  grow-Grows (suc n) lo hi x key change o w =
      let i = route x.rest key in
      let c = child x.first x.rest i in
      let cl = child_low lo x.rest key in
      let ch = child_high hi x.rest key in
      let co : IsOrdered n cl ch c =
        child-Ordered (locate n) (IsOrdered n) (IsOrdered-less n) lo hi x.first x.rest key o in
      let there : locate (suc n) lo hi x key ≡ locate n cl ch c key =
        chain_find-child (locate n) (IsOrdered n) (IsOrdered-less n) lo hi x.first x.rest key in
      let below = grow-Grows n cl ch c key change co (rw there at w) in
      let g = grow n c key change in
      let level =
        Chain-Updates (locate n) (IsOrdered n) (IsOrdered-less n) lo hi x.first x.rest key g o
          below.0 in
      let whole = update_inner_same n lo hi x i g level.0 in
      (
        whole.0,
        λ q iq.
            whole.1 q
            ∙ level.1 q iq
            ∙ rw there (elim (Bool-cases (inside cl ch q)) [
              | inl h ↦ rw h (
                  rw
                    (chain_find-inside (locate n) (IsOrdered n) (IsOrdered-less n) lo hi x.first
                      x.rest key q o h)
                    (below.1 q h))
              | inr h ↦
                  elim (Bool-cases (inside (locate n cl ch c key).0 (locate n cl ch c key).1 q)) [
                    | inl h' ↦
                        let h2 : inside cl ch q ≡ true = locate_nested n cl ch c key q co h' in cc
                    | inr h' ↦ rw (h, h') refl
                  ]
            ]),
      )

  -- All keys of a leaf's range end in that leaf.
  pub locate_range :
      (n : ℕ) (lo hi : Bound) (x : Node L n) (key q : Bytes)
      → IsOrdered n lo hi x
      → inside (locate n lo hi x key).0 (locate n lo hi x key).1 q ≡ true
      → locate n lo hi x q ≡ locate n lo hi x key
  locate_range zero lo hi x key q o i = refl
  locate_range (suc n) lo hi x key q o i =
      let c = child x.first x.rest (route x.rest key) in
      let cl = child_low lo x.rest key in
      let ch = child_high hi x.rest key in
      let co : IsOrdered n cl ch c =
        child-Ordered (locate n) (IsOrdered n) (IsOrdered-less n) lo hi x.first x.rest key o in
      let there : locate (suc n) lo hi x key ≡ locate n cl ch c key =
        chain_find-child (locate n) (IsOrdered n) (IsOrdered-less n) lo hi x.first x.rest key in
      let j = rw there at i in
      chain_find-inside (locate n) (IsOrdered n) (IsOrdered-less n) lo hi x.first x.rest key q o
        (locate_nested n cl ch c key q co j)
      ∙ locate_range n cl ch c key q co j
      ∙ sym there

  abbrev pub top_locate : Top L → Bytes → Bound × Bound × L
  top_locate t q = locate t.height none none t.node q

  abbrev pub TopOrdered : Top L → Type 0
  TopOrdered t = IsOrdered t.height none none t.node

  new_top_same :
      (n : ℕ) (G : Grown (Node L n)) (after : Bytes → Bound × Bound × L)
      → GrownOrdered (IsOrdered n) none none G
      → ((q : Bytes) → inside none none q ≡ true → grown_find (locate n) none none G q ≡ after q)
      → TopOrdered (new_top n G) × ((q : Bytes) → top_locate (new_top n G) q ≡ after q)
  unfolding new_top
  new_top_same n (kept x) after o f = (o, λ q. f q refl)
  new_top_same n (split a s b) after o f = (o, λ q. f q refl)

  -- In a tree in order, the leaf of a key is changed into a leaf or two that are in order. Then the
  -- tree with all splits of inner nodes up to a new top is in order, the keys of that leaf's range
  -- end in what it has become, and all other keys end where they did.
  pub grow_top-locate :
      (t : Top L) (key : Bytes) (change : L → Grown L)
      → TopOrdered t
      → let here = top_locate t key in
        GrownOrdered (IsOrdered zero) here.0 here.1 (change here.2)
        → TopOrdered (grow_top t key change)
          × ((q : Bytes)
              → top_locate (grow_top t key change) q ≡ (
                  if inside here.0 here.1 q
                  then grown_find (locate zero) here.0 here.1 (change here.2) q
                  else top_locate t q))
  unfolding grow_top
  grow_top-locate t key change o w =
      let g = grow-Grows t.height none none t.node key change o w in
      new_top_same t.height (grow t.height t.node key change) _ g.0 g.1

  -- The range of a leaf is not empty.
  pub locate_less :
      (n : ℕ) (lo hi : Bound) (x : Node L n) (q : Bytes)
      → IsOrdered n lo hi x
      → less_bounds (locate n lo hi x q).0 (locate n lo hi x q).1 ≡ true
  locate_less zero lo hi leaf q o = o
  locate_less (suc n) lo hi x q o =
      rw (chain_find-child (locate n) (IsOrdered n) (IsOrdered-less n) lo hi x.first x.rest q) (
        locate_less n (child_low lo x.rest q) (child_high hi x.rest q)
          (child x.first x.rest (route x.rest q)) q
          (child-Ordered (locate n) (IsOrdered n) (IsOrdered-less n) lo hi x.first x.rest q o))

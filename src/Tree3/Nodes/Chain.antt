-- ===== src/Tree3/Nodes/Chain.antt =====
-- Proofs about src/engines-experimental/tree3.cc: the children of an inner node as a chain of
-- ranges, and a change of one of them.
use pmemkv.Base.{
  ℕ, zero, suc, ◌≡◌, refl, true, false, List, [], ◌∷◌, some, Bytes, take, drop, if◌then◌else◌,
  arith, Bool-cases, inl, inr,
}
use pmemkv.Tree3.{before, at_most}
use pmemkv.Tree3.Nodes.{Inner, Grown, kept, split, child, set_child, route, position, insert_at}
use pmemkv.Tree3.Nodes.Order.{
  Bound, above, below, inside, less_bounds, at_most-eq, at_most_of_above, less_bounds_trans,
  at_most_widen, above_widen, below_widen, above_of_less_bounds, at_most_of_before,
}

-- What `find` gives for a key within the bounds of a node, through the node's children.
module _ {A R : Type 0} (find : Bound → Bound → A → Bytes → R) where
  abbrev pub chain_find : Bound → Bound → A → List (Bytes × A) → Bytes → R
  chain_find lo hi c [] q = find lo hi c q
  chain_find lo hi c ((k, d) ∷ r) q =
      if at_most q k then find lo (some k) c q else chain_find (some k) hi d r q

  abbrev pub grown_find : Bound → Bound → Grown A → Bytes → R
  grown_find lo hi (kept a) q = find lo hi a q
  grown_find lo hi (split a s b) q =
      if at_most q s then find lo (some s) a q else find (some s) hi b q

-- What orders the children within their bounds orders the node.
module _ {A : Type 0} (Ordered : Bound → Bound → A → Type 0) where
  abbrev pub Chain : Bound → Bound → A → List (Bytes × A) → Type 0
  Chain lo hi c [] = Ordered lo hi c
  Chain lo hi c ((k, d) ∷ r) = Ordered lo (some k) c × Chain (some k) hi d r

  abbrev pub GrownOrdered : Bound → Bound → Grown A → Type 0
  GrownOrdered lo hi (kept a) = Ordered lo hi a
  GrownOrdered lo hi (split a s b) = Ordered lo (some s) a × Ordered (some s) hi b

module _ {A : Type 0} where
  -- the range of the child that the search for a key goes to
  abbrev pub child_low : Bound → List (Bytes × A) → Bytes → Bound
  child_low lo [] key = lo
  child_low lo ((k, d) ∷ r) key = if at_most key k then lo else child_low (some k) r key

  abbrev pub child_high : Bound → List (Bytes × A) → Bytes → Bound
  child_high hi [] key = hi
  child_high hi ((k, d) ∷ r) key = if at_most key k then some k else child_high hi r key

  -- the node after the change of the child, before it may be split
  abbrev pub updated : A → List (Bytes × A) → ℕ → Grown A → Inner A
  updated c r i (kept c') = set_child c r i c'
  updated c r i (split c' s d) =
      let y = set_child c r i c' in record y { rest = insert_at (position y.rest s) (s, d) y.rest }

module _ {A R : Type 0} (find : Bound → Bound → A → Bytes → R)
    (Ordered : Bound → Bound → A → Type 0)
    (Ordered-less : (lo hi : Bound) (a : A) → Ordered lo hi a → less_bounds lo hi ≡ true) where
  pub Chain-less :
      (lo hi : Bound) (c : A) (r : List (Bytes × A))
      → Chain Ordered lo hi c r
      → less_bounds lo hi ≡ true
  Chain-less lo hi c [] o = Ordered-less lo hi c o
  Chain-less lo hi c ((k, d) ∷ r) o =
      less_bounds_trans lo (some k) hi k refl (Ordered-less lo (some k) c o.0)
        (Chain-less (some k) hi d r o.1)

  pub child-Ordered :
      (lo hi : Bound) (c : A) (r : List (Bytes × A)) (key : Bytes)
      → Chain Ordered lo hi c r
      → Ordered (child_low lo r key) (child_high hi r key) (child c r (route r key))
  unfolding child route
  child-Ordered lo hi c [] key o = o
  child-Ordered lo hi c ((k, d) ∷ r) key o = elim (Bool-cases (at_most key k)) [
    | inl h ↦ rw h o.0
    | inr h ↦ rw h (child-Ordered (some k) hi d r key o.1)
  ]

  pub child_inside :
      (lo hi : Bound) (r : List (Bytes × A)) (key : Bytes)
      → inside lo hi key ≡ true
      → inside (child_low lo r key) (child_high hi r key) key ≡ true
  child_inside lo hi [] key h = h
  child_inside lo hi ((k, d) ∷ r) key h = elim (Bool-cases (at_most key k)) [
    | inl g ↦ rw g (ground arith)
    | inr g ↦ rw g (child_inside (some k) hi r key (ground (arith, at_most_of_above key k g)))
  ]

  pub chain_find-child :
      (lo hi : Bound) (c : A) (r : List (Bytes × A)) (key : Bytes)
      → chain_find find lo hi c r key
        ≡ find (child_low lo r key) (child_high hi r key) (child c r (route r key)) key
  unfolding child route
  chain_find-child lo hi c [] key = refl
  chain_find-child lo hi c ((k, d) ∷ r) key = elim (Bool-cases (at_most key k)) [
    | inl h ↦ rw h refl
    | inr h ↦ rw h (chain_find-child (some k) hi d r key)
  ]

  -- No child begins before the first one does.
  child_low-above :
      (lo hi : Bound) (c : A) (r : List (Bytes × A)) (key q : Bytes)
      → Chain Ordered lo hi c r
      → above (child_low lo r key) q ≡ true
      → above lo q ≡ true
  child_low-above lo hi c [] key q o h = h
  child_low-above lo hi c ((k, d) ∷ r) key q o h = elim (Bool-cases (at_most key k)) [
    | inl g ↦ rw g at h
    | inr g ↦
        above_widen lo k q (Ordered-less lo (some k) c o.0)
          (child_low-above (some k) hi d r key q o.1 (rw g at h))
  ]

  -- What a change of the child for `key` makes of a node: it stays ordered, the keys of that child
  -- are found in what the child has become, and all other keys where they were.
  abbrev pub Updates : Bound → Bound → A → List (Bytes × A) → Bytes → Grown A → Type 0
  Updates lo hi c r key g =
      let y = updated c r (route r key) g in
      Chain Ordered lo hi y.first y.rest
      × ((q : Bytes)
          → inside lo hi q ≡ true
          → chain_find find lo hi y.first y.rest q ≡ (
              if inside (child_low lo r key) (child_high hi r key) q
              then grown_find find (child_low lo r key) (child_high hi r key) g q
              else chain_find find lo hi c r q))

  -- the change of the first child
  Updates-here :
      (lo hi : Bound) (c : A) (k : Bytes) (d : A) (r : List (Bytes × A)) (key : Bytes) (g : Grown A)
      → Chain Ordered lo hi c ((k, d) ∷ r)
      → at_most key k ≡ true
      → GrownOrdered Ordered lo (some k) g
      → Updates lo hi c ((k, d) ∷ r) key g
  unfolding route set_child insert_at position
  Updates-here lo hi c k d r key (kept c') o h w = rw h ((w, o.1), λ q i. ground arith)
  Updates-here lo hi c k d r key (split c' s d') o h w =
      let sk : before s k ≡ true = Ordered-less (some s) (some k) d' w.1 in
      let above_s : at_most k s ≡ false = ground (arith, at_most-eq k s) in
      rw (h, above_s) ((w.0, (w.1, o.1)), λ q i. ground (arith, at_most_widen q s k))

  -- A key up to `k` is not in the range of a child behind `k`, and any other is behind `k` too.
  find_there :
      (lo hi : Bound) (c : A) (k : Bytes) (d : A) (r : List (Bytes × A)) (key q : Bytes)
      (new old : R)
      → Chain Ordered (some k) hi d r
      → inside lo hi q ≡ true
      → (inside (some k) hi q ≡ true
          → new ≡ (
              if inside (child_low (some k) r key) (child_high hi r key) q
              then old
              else chain_find find (some k) hi d r q))
      → (if at_most q k then find lo (some k) c q else new) ≡ (
          if inside (child_low (some k) r key) (child_high hi r key) q
          then old
          else (if at_most q k then find lo (some k) c q else chain_find find (some k) hi d r q))
  find_there lo hi c k d r key q new old o i u = elim (Bool-cases (at_most q k)) [
    | inl g ↦ elim (Bool-cases (above (child_low (some k) r key) q)) [
      | inl a ↦
          let b : before k q ≡ true = child_low-above (some k) hi d r key q o a in
          ground (arith, at_most-eq q k)
      | inr a ↦ rw (g, a) refl
    ]
    | inr g ↦ rw g (u (ground (arith, at_most_of_above q k g)))
  ]

  -- the change of a later child
  Updates-there :
      (lo hi : Bound) (c : A) (k : Bytes) (d : A) (r : List (Bytes × A)) (key : Bytes) (g : Grown A)
      → Chain Ordered lo hi c ((k, d) ∷ r)
      → at_most key k ≡ false
      → GrownOrdered Ordered (child_low (some k) r key) (child_high hi r key) g
      → Updates (some k) hi d r key g
      → Updates lo hi c ((k, d) ∷ r) key g
  unfolding route set_child insert_at position
  Updates-there lo hi c k d r key (kept c') o h w u =
      rw h ((o.0, u.0), λ q i. find_there lo hi c k d r key q _ _ o.1 i (u.1 q))
  Updates-there lo hi c k d r key (split c' s d') o h w u =
      let low = child_low (some k) r key in
      let up : above low s ≡ true = above_of_less_bounds low s (Ordered-less low (some s) c' w.0) in
      let ks : at_most k s ≡ true =
        at_most_of_before k s (child_low-above (some k) hi d r key s o.1 up) in
      rw (h, ks) ((o.0, u.0), λ q i. find_there lo hi c k d r key q _ _ o.1 i (u.1 q))

  pub Chain-Updates :
      (lo hi : Bound) (c : A) (r : List (Bytes × A)) (key : Bytes) (g : Grown A)
      → Chain Ordered lo hi c r
      → GrownOrdered Ordered (child_low lo r key) (child_high hi r key) g
      → Updates lo hi c r key g
  unfolding route set_child insert_at position
  Chain-Updates lo hi c [] key (kept c') o w = (w, λ q i. rw i refl)
  Chain-Updates lo hi c [] key (split c' s d') o w = (w, λ q i. rw i refl)
  Chain-Updates lo hi c ((k, d) ∷ r) key g o w = elim (Bool-cases (at_most key k)) [
    | inl h ↦ Updates-here lo hi c k d r key g o h (rw h at w)
    | inr h ↦
        let w' = rw h at w in
        Updates-there lo hi c k d r key g o h w' (Chain-Updates (some k) hi d r key g o.1 w')
  ]

  -- A node that is cut at one of its keys.
  pub Chain-cut :
      (m : ℕ) (lo hi : Bound) (c : A) (r : List (Bytes × A)) (k : Bytes) (d : A)
      (upper : List (Bytes × A))
      → Chain Ordered lo hi c r
      → drop m r ≡ (k, d) ∷ upper
      → Chain Ordered lo (some k) c (take m r)
        × Chain Ordered (some k) hi d upper
        × ((q : Bytes)
            → chain_find find lo hi c r q ≡ (
                if at_most q k
                then chain_find find lo (some k) c (take m r) q
                else chain_find find (some k) hi d upper q))
  Chain-cut zero lo hi c r k d upper o e =
      let o' : Chain Ordered lo hi c ((k, d) ∷ upper) = rw e at o in rw e (o'.0, o'.1, λ q. refl)
  Chain-cut (suc m) lo hi c [] k d upper o e = cc
  Chain-cut (suc m) lo hi c ((j, b) ∷ r) k d upper o e =
      let rest = Chain-cut m (some j) hi b r k d upper o.1 e in
      let jk = Chain-less (some j) (some k) b (take m r) rest.0 in
      ((o.0, rest.0), rest.1, λ q. ground (arith, rest.2 q, at_most_widen q j k))

  -- No child ends behind the last one.
  child_high-below :
      (lo hi : Bound) (c : A) (r : List (Bytes × A)) (key q : Bytes)
      → Chain Ordered lo hi c r
      → below q (child_high hi r key) ≡ true
      → below q hi ≡ true
  child_high-below lo hi c [] key q o h = h
  child_high-below lo hi c ((k, d) ∷ r) key q o h = elim (Bool-cases (at_most key k)) [
    | inl g ↦ below_widen q k hi (Chain-less (some k) hi d r o.1) (rw g at h)
    | inr g ↦ child_high-below (some k) hi d r key q o.1 (rw g at h)
  ]

  pub child_nested :
      (lo hi : Bound) (c : A) (r : List (Bytes × A)) (key q : Bytes)
      → Chain Ordered lo hi c r
      → inside (child_low lo r key) (child_high hi r key) q ≡ true
      → inside lo hi q ≡ true
  child_nested lo hi c r key q o h =
      ground (arith, child_low-above lo hi c r key q o, child_high-below lo hi c r key q o)

  -- A key in the range of the child for `key` is looked for in that child.
  pub chain_find-inside :
      (lo hi : Bound) (c : A) (r : List (Bytes × A)) (key q : Bytes)
      → Chain Ordered lo hi c r
      → inside (child_low lo r key) (child_high hi r key) q ≡ true
      → chain_find find lo hi c r q
        ≡ find (child_low lo r key) (child_high hi r key) (child c r (route r key)) q
  unfolding child route
  chain_find-inside lo hi c [] key q o h = refl
  chain_find-inside lo hi c ((k, d) ∷ r) key q o h = elim (Bool-cases (at_most key k)) [
    | inl g ↦
        let h' : inside lo (some k) q ≡ true = rw g at h in
        let near : at_most q k ≡ true = ground arith in rw (g, near) refl
    | inr g ↦
        let h' : inside (child_low (some k) r key) (child_high hi r key) q ≡ true = rw g at h in
        let behind = child_low-above (some k) hi d r key q o.1 (ground arith) in
        let far : at_most q k ≡ false = ground (arith, at_most-eq q k) in
        rw (g, far) (chain_find-inside (some k) hi d r key q o.1 h')
  ]

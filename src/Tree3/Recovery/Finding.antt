-- ===== src/Tree3/Recovery/Finding.antt =====
-- Proofs about src/engines-experimental/tree3.cc: what `Recover` reads from the leaves of a valid
-- tree, and the leaves in which it finds a key again.
use pmemkv.Base.{
  ℕ, ◌≡◌, ◌≢◌, ◌∙◌, ◌⊎◌, refl, sym, none, some, Bytes, arith, inl, inr, true, false, Bool-cases,
  Option-cases,
}
use pmemkv.Tree3.{before, at_most}
use pmemkv.Tree3.Leaves.{Memory, KvLeafNode, hash_at, key_at}
use pmemkv.Tree3.Nodes.{Top}
use pmemkv.Tree3.Nodes.Growth.{locate-inside, locate_range}
use pmemkv.Tree3.Nodes.Order.{Bound, above, below, inside, at_most-eq, before_split}
use pmemkv.Tree3.Reading.{Covers}
use pmemkv.Tree3.Recovery.{RecoveredLeaf}
use pmemkv.Tree3.Recovery.Listing.{Known}
use pmemkv.Tree3.Recovery.Origin.{
  Agrees, read, read-Agrees, read-Covers, read-one_of, read-none, read-IsEmpty,
}
use pmemkv.Tree3.Slots.{IsEmpty}
use pmemkv.Tree3.Validity.{TreeValid, place}

above_of_at_most :
    (lo : Bound) (a b : Bytes) → above lo a ≡ true → at_most a b ≡ true → above lo b ≡ true
above_of_at_most none a b h l = refl
above_of_at_most (some k) a b h l = elim (Bool-cases (before k b)) [
  | inl g ↦ g
  | inr g ↦ ground (arith, at_most-eq a b, before_split k b a g)
]

below_of_at_most :
    (hi : Bound) (b c : Bytes) → below c hi ≡ true → at_most b c ≡ true → below b hi ≡ true
below_of_at_most none b c h l = refl
below_of_at_most (some k) b c h l =
    ground (arith, at_most-eq c k, at_most-eq b c, at_most-eq b k, before_split k c b)

pub at_most_trans_before :
    (a b c : Bytes) → at_most a b ≡ true → before b c ≡ true → before a c ≡ true
at_most_trans_before a b c h l = elim (Bool-cases (before a c)) [
  | inl g ↦ g
  | inr g ↦ ground (arith, at_most-eq a b, before_split b a c)
]

module _ (ph : Bytes → ℕ) (ph-ne-zero : (k : Bytes) → ph k ≢ 0) (mem : Memory)
    (t : Top KvLeafNode) where
  -- The node is read from the leaf node of its highest key, which is the highest one there.
  pub record IsFrom (r : RecoveredLeaf) : Type 0 where
    pub agrees : Agrees ph ph-ne-zero r.leafnode (place t r.max_key).2
    pub highest :
        (j : ℕ)
        → hash_at (place t r.max_key).2 j ≢ 0
        → at_most (key_at (place t r.max_key).2 j) r.max_key ≡ true
    pub max_used :
        (j : ℕ) × (hash_at (place t r.max_key).2 j ≢ 0)
        × (key_at (place t r.max_key).2 j ≡ r.max_key)

  module _ (v : TreeValid ph ph-ne-zero mem t) where
    pub in_own_range : (q : Bytes) → inside (place t q).0 (place t q).1 q ≡ true
    in_own_range q = locate-inside KvLeafNode t.height none none t.node q refl

    pub place_of_inside :
        (a b : Bytes) → inside (place t a).0 (place t a).1 b ≡ true → place t b ≡ place t a
    place_of_inside a b h = locate_range KvLeafNode t.height none none t.node a b v.ordered h

    -- A key in use is in the range of its leaf.
    pub place_of_used :
        (q : Bytes) (j : ℕ)
        → hash_at (place t q).2 j ≢ 0
        → place t (key_at (place t q).2 j) ≡ place t q
    place_of_used q j u = place_of_inside q (key_at (place t q).2 j) (v.in_range q j u)

    -- A range has every key between two of its keys.
    pub place_between :
        (a b c : Bytes)
        → place t a ≡ place t c
        → at_most a b ≡ true
        → at_most b c ≡ true
        → place t b ≡ place t c
    place_between a b c e h k =
        let x : inside (place t c).0 (place t c).1 a ≡ true = rw e at (in_own_range a) in
        let y = in_own_range c in
        let l : above (place t c).0 b ≡ true =
          above_of_at_most (place t c).0 a b (ground arith) h in
        let r : below b (place t c).1 ≡ true =
          below_of_at_most (place t c).1 b c (ground arith) k in
        place_of_inside c b (rw (l, r) refl)

    pub read-IsFrom :
        (q key : Bytes)
        → (read mem (place t q).2.leaf).1 ≡ some key
        → IsFrom (record { leafnode = (read mem (place t q).2.leaf).0; max_key = key })
    read-IsFrom q key e =
        let n = (place t q).2 in
        let w = v.leaf_nodes q in
        let (j, u, k) = read-one_of ph ph-ne-zero mem n w key e in
        let same : place t key ≡ place t q = rw k at (place_of_used q j u) in
        record {
          agrees = rw same (read-Agrees ph ph-ne-zero mem n w);
          highest = rw same (λ i x.
              let c : Covers (some key) (key_at n i) =
                rw e at (read-Covers ph ph-ne-zero mem n w i x) in
              c);
          max_used = rw same (j, u, k);
        }

    -- A leaf of the tree, or an empty one, is read as it should be.
    pub read-Known :
        (l : ℕ) → ((q : Bytes) × ((place t q).2.leaf ≡ l)) ⊎ IsEmpty mem l → Known mem IsFrom l
    read-Known l (inr empty) = inl (read-IsEmpty mem l empty, empty)
    read-Known l (inl (q, here)) = elim (Option-cases (read mem (place t q).2.leaf).1) [
      | inl e ↦
          let empty = read-none ph ph-ne-zero mem (place t q).2 (v.leaf_nodes q) e in
          inl (rw (← here) (e, empty))
      | inr (key, e) ↦ inr (key, rw (← here) e, rw (← here) (read-IsFrom q key e))
    ]

    -- Nodes with one persistent leaf are read from one leaf node.
    pub place-IsFrom :
        (a b : RecoveredLeaf)
        → IsFrom a
        → IsFrom b
        → a.leafnode.leaf ≡ b.leafnode.leaf
        → place t a.max_key ≡ place t b.max_key
    place-IsFrom a b f g e = v.own a.max_key b.max_key (sym f.agrees.leaf ∙ e ∙ g.agrees.leaf)

    pub leaf-IsFrom :
        (a b : RecoveredLeaf)
        → IsFrom a
        → IsFrom b
        → place t a.max_key ≡ place t b.max_key
        → a.leafnode.leaf ≡ b.leafnode.leaf
    leaf-IsFrom a b f g e = f.agrees.leaf ∙ rw e (sym g.agrees.leaf)

    -- No two nodes with different highest keys are read from one leaf node.
    pub IsFrom-different :
        (a b : RecoveredLeaf)
        → IsFrom a
        → IsFrom b
        → before a.max_key b.max_key ≡ true
        → place t a.max_key ≢ place t b.max_key
    IsFrom-different a b f g h e =
        let (j, u, k) = g.max_used in
        let x : at_most (key_at (place t b.max_key).2 j) a.max_key ≡ true =
          (rw e at f.highest) j u in
        let y : at_most b.max_key a.max_key ≡ true = rw k at x in
        let z : at_most b.max_key a.max_key ≡ false = at_most-eq b.max_key a.max_key ∙ rw h refl in
        cc

-- ===== src/Tree3/Validity.antt =====
-- Proofs about src/engines-experimental/tree3.cc: the invariant of the tree with its memory, and a
-- step that changes one leaf.
use pmemkv.Base.{
  ℕ, zero, ◌≡◌, ◌≢◌, ◌∙◌, ◌⊎◌, refl, sym, ap, Bool, true, false, Option, none, Bytes, length,
  if◌then◌else◌, Bool-cases, inl, inr,
}
use pmemkv.Tree3.Filling.{IsLeafNode}
use pmemkv.Tree3.Leaves.{Memory, KvLeafNode, leaf_keys, slot_at, hash_at, key_at}
use pmemkv.Tree3.Nodes.{Grown, Top, grow_top}
use pmemkv.Tree3.Nodes.Chain.{GrownOrdered, grown_find}
use pmemkv.Tree3.Nodes.Growth.{
  locate, IsOrdered, locate-inside, locate_range, top_locate, TopOrdered, grow_top-locate,
}
use pmemkv.Tree3.Nodes.Order.{Bound, inside}
use pmemkv.Tree3.Slots.{IsLeaf, leaf_value, leaf_value-congr}

-- the keys in use are those of the leaf's range
abbrev pub IsInRange : Bound → Bound → KvLeafNode → Type 0
IsInRange lo hi n = (i : ℕ) → hash_at n i ≢ 0 → inside lo hi (key_at n i) ≡ true

-- a leaf node with the range of its keys
abbrev pub Place : Type 0
Place = Bound × Bound × KvLeafNode

abbrev pub place : Top KvLeafNode → Bytes → Place
place t q = top_locate KvLeafNode t q

abbrev pub new_place : Bound → Bound → Grown KvLeafNode → Bytes → Place
new_place lo hi g q = grown_find (locate KvLeafNode zero) lo hi g q

module _ (ph : Bytes → ℕ) (ph-ne-zero : (k : Bytes) → ph k ≢ 0) where
  -- The leaves are in order, each with its keys, and no two leaf nodes share a persistent leaf.
  pub record TreeValid (mem : Memory) (t : Top KvLeafNode) : Type 0 where
    pub ordered : TopOrdered KvLeafNode t
    pub leaf_nodes : (q : Bytes) → IsLeafNode ph ph-ne-zero mem (place t q).2
    pub in_range : (q : Bytes) → IsInRange (place t q).0 (place t q).1 (place t q).2
    pub own : (q q' : Bytes) → (place t q).2.leaf ≡ (place t q').2.leaf → place t q ≡ place t q'

  -- What a change of the leaf at `here` into `g` does to the memory. `Taken` are the persistent
  -- leaves that it takes into use.
  pub record LeafStep (mem mem' : Memory) (here : Place) (g : Grown KvLeafNode) (Taken : ℕ → Type 0)
      (update : Bytes → Option Bytes → Option Bytes) : Type 0 where
    pub grown : GrownOrdered (IsOrdered KvLeafNode zero) here.0 here.1 g
    pub good :
        (q : Bytes)
        → inside here.0 here.1 q ≡ true
        → let p = new_place here.0 here.1 g q in
          IsLeafNode ph ph-ne-zero mem' p.2 × IsInRange p.0 p.1 p.2
    pub updated :
        (q : Bytes)
        → inside here.0 here.1 q ≡ true
        → leaf_value ph ph-ne-zero leaf_keys mem' (new_place here.0 here.1 g q).2 q
          ≡ update q (leaf_value ph ph-ne-zero leaf_keys mem here.2 q)
    pub own_new :
        (q q' : Bytes)
        → inside here.0 here.1 q ≡ true
        → inside here.0 here.1 q' ≡ true
        → (new_place here.0 here.1 g q).2.leaf ≡ (new_place here.0 here.1 g q').2.leaf
        → new_place here.0 here.1 g q ≡ new_place here.0 here.1 g q'
    pub origin :
        (q : Bytes)
        → inside here.0 here.1 q ≡ true
        → ((new_place here.0 here.1 g q).2.leaf ≡ here.2.leaf)
          ⊎ Taken (new_place here.0 here.1 g q).2.leaf
    pub frame : (l j : ℕ) → here.2.leaf ≢ l → (Taken l → ⊥) → slot_at mem' l j ≡ slot_at mem l j
    pub frame_leaf : (l : ℕ) → IsLeaf mem l → IsLeaf mem' l
    pub same_length : length mem' ≡ length mem
    pub reached :
        (l : ℕ)
        → ((q : Bytes) × (inside here.0 here.1 q ≡ true)
            × ((new_place here.0 here.1 g q).2.leaf ≡ l))
          ⊎ ((here.2.leaf ≢ l) × (Taken l → ⊥))

  module _ (mem mem' : Memory) (t : Top KvLeafNode) (key : Bytes) (g : Grown KvLeafNode)
      (Taken : ℕ → Type 0) (update : Bytes → Option Bytes → Option Bytes) (v : TreeValid mem t)
      (w : LeafStep mem mem' (place t key) g Taken update)
      (free : (q : Bytes) → Taken (place t q).2.leaf → ⊥) where
    abbrev pub stepped : Top KvLeafNode
    stepped = grow_top t key (λ _. g)

    abbrev pub touched : Bytes → Bool
    touched q = inside (place t key).0 (place t key).1 q

    grown_tree :
        TopOrdered KvLeafNode stepped
        × ((q : Bytes)
            → place stepped q
              ≡ (if touched q then new_place (place t key).0 (place t key).1 g q else place t q))
    grown_tree = grow_top-locate KvLeafNode t key (λ _. g) v.ordered w.grown

    pub place-touched :
        (q : Bytes)
        → touched q ≡ true
        → place stepped q ≡ new_place (place t key).0 (place t key).1 g q
    place-touched q h = grown_tree.1 q ∙ rw h refl

    pub place-untouched : (q : Bytes) → touched q ≡ false → place stepped q ≡ place t q
    place-untouched q h = grown_tree.1 q ∙ rw h refl

    -- Another leaf node is not that of the key.
    apart : (q : Bytes) → touched q ≡ false → (place t key).2.leaf ≢ (place t q).2.leaf
    apart q h e =
        let same = v.own key q e in
        let i : inside (place t q).0 (place t q).1 q ≡ true =
          locate-inside KvLeafNode t.height none none t.node q refl in
        let j : touched q ≡ true = rw same i in cc

    untouched_node : (q : Bytes) → touched q ≡ false → IsLeafNode ph ph-ne-zero mem' (place t q).2
    untouched_node q h =
        let n = v.leaf_nodes q in
        record {
          leaf = w.frame_leaf (place t q).2.leaf n.leaf;
          hashes_length = n.hashes_length;
          keys_length = n.keys_length;
          hashed = n.hashed;
          distinct = n.distinct;
          stored = λ i u. rw (w.frame (place t q).2.leaf i (apart q h) (free q)) (n.stored i u);
          cleared = λ i z. w.frame (place t q).2.leaf i (apart q h) (free q) ∙ n.cleared i z;
        }

    own_mixed :
        (q q' : Bytes)
        → touched q ≡ true
        → touched q' ≡ false
        → (new_place (place t key).0 (place t key).1 g q).2.leaf ≢ (place t q').2.leaf
    own_mixed q q' h h' e = elim (w.origin q h) [
      | inl old ↦ apart q' h' (sym old ∙ e)
      | inr new ↦ free q' (rw (← e) new)
    ]

    own_stepped :
        (q q' : Bytes)
        → (place stepped q).2.leaf ≡ (place stepped q').2.leaf
        → place stepped q ≡ place stepped q'
    own_stepped q q' = elim (Bool-cases (touched q)) [
      | inl h ↦ elim (Bool-cases (touched q')) [
        | inl h' ↦ rw (place-touched q h, place-touched q' h') (w.own_new q q' h h')
        | inr h' ↦
            rw (place-touched q h, place-untouched q' h') (λ e. absurd (own_mixed q q' h h' e))
      ]
      | inr h ↦ elim (Bool-cases (touched q')) [
        | inl h' ↦
            rw (place-untouched q h, place-touched q' h')
              (λ e. absurd (own_mixed q' q h' h (sym e)))
        | inr h' ↦ rw (place-untouched q h, place-untouched q' h') (v.own q q')
      ]
    ]

    pub LeafStep-TreeValid : TreeValid mem' stepped
    LeafStep-TreeValid = record {
      ordered = grown_tree.0;
      leaf_nodes = λ q. elim (Bool-cases (touched q)) [
        | inl h ↦ rw (place-touched q h) (w.good q h).0
        | inr h ↦ rw (place-untouched q h) (untouched_node q h)
      ];
      in_range = λ q. elim (Bool-cases (touched q)) [
        | inl h ↦ rw (place-touched q h) (w.good q h).1
        | inr h ↦ rw (place-untouched q h) (v.in_range q)
      ];
      own = own_stepped;
    }

    pub leaf_value-stepped :
        (q : Bytes)
        → leaf_value ph ph-ne-zero leaf_keys mem' (place stepped q).2 q ≡ (
            if touched q
            then update q (leaf_value ph ph-ne-zero leaf_keys mem (place t q).2 q)
            else leaf_value ph ph-ne-zero leaf_keys mem (place t q).2 q)
    leaf_value-stepped q = elim (Bool-cases (touched q)) [
      | inl h ↦
          rw (place-touched q h, h)
            (w.updated q h
              ∙ ap (λ (n : KvLeafNode). update q (leaf_value ph ph-ne-zero leaf_keys mem n q))
                  (ap (λ (p : Place). p.2)
                    (sym (locate_range KvLeafNode t.height none none t.node key q v.ordered h))))
      | inr h ↦
          rw (place-untouched q h, h)
            (leaf_value-congr ph ph-ne-zero leaf_keys mem mem' (place t q).2 (place t q).2 q
              (λ j. refl) (λ j m. w.frame (place t q).2.leaf j (apart q h) (free q)))
    ]

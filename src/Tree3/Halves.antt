-- ===== src/Tree3/Halves.antt =====
-- Proofs about src/engines-experimental/tree3.cc: the step that puts two leaf nodes in the place of
-- one.
use native.Mathlib.Decide.{ℕ_discrete}
use pmemkv.Base.{
  ℕ, ◌≡◌, ◌≢◌, ◌∙◌, refl, sym, true, false, Option, some, Bytes, length, arith, Bool-cases, inl,
  inr,
}
use pmemkv.Tree3.{before, at_most}
use pmemkv.Tree3.Filling.{IsLeafNode}
use pmemkv.Tree3.Leaves.{Memory, KvLeafNode, leaf_keys, slot_at, leaf_keys}
use pmemkv.Tree3.Nodes.{split}
use pmemkv.Tree3.Nodes.Order.{
  Bound, inside, less_bounds, at_most_of_above, at_most-eq, before_irrefl,
}
use pmemkv.Tree3.Slots.{IsLeaf, leaf_value}
use pmemkv.Tree3.Validity.{Place, LeafStep, IsInRange, new_place}

module _ (ph : Bytes → ℕ) (ph-ne-zero : (k : Bytes) → ph k ≢ 0) where
  -- a leaf node that takes over the keys of a part of a place's range
  pub record IsHalf (mem : Memory) (here : Place) (update : Bytes → Option Bytes → Option Bytes)
      (mem' : Memory) (lo hi : Bound) (n : KvLeafNode) : Type 0 where
    pub less : less_bounds lo hi ≡ true
    pub leaf_node : IsLeafNode ph ph-ne-zero mem' n
    pub range : IsInRange lo hi n
    pub updated :
        (q : Bytes)
        → inside lo hi q ≡ true
        → leaf_value ph ph-ne-zero leaf_keys mem' n q
          ≡ update q (leaf_value ph ph-ne-zero leaf_keys mem here.2 q)

  module _ (mem mem' : Memory) (here : Place) (update : Bytes → Option Bytes → Option Bytes)
      (s : Bytes) (a b : KvLeafNode) (u : IsHalf mem here update mem' here.0 (some s) a)
      (v : IsHalf mem here update mem' (some s) here.1 b) (same_a : a.leaf ≡ here.2.leaf) (leaf : ℕ)
      (same_b : b.leaf ≡ leaf) (differ : here.2.leaf ≢ leaf) where
    lower :
        (q : Bytes)
        → at_most q s ≡ true
        → new_place here.0 here.1 (split a s b) q ≡ (here.0, some s, a)
    lower q h = rw h refl

    upper :
        (q : Bytes)
        → at_most q s ≡ false
        → new_place here.0 here.1 (split a s b) q ≡ (some s, here.1, b)
    upper q h = rw h refl

    in_lower :
        (q : Bytes)
        → inside here.0 here.1 q ≡ true
        → at_most q s ≡ true
        → inside here.0 (some s) q ≡ true
    in_lower q i h = ground arith

    in_upper :
        (q : Bytes)
        → inside here.0 here.1 q ≡ true
        → at_most q s ≡ false
        → inside (some s) here.1 q ≡ true
    in_upper q i h = ground (arith, at_most_of_above q s h)

    own_halves :
        (q q' : Bytes)
        → (new_place here.0 here.1 (split a s b) q).2.leaf
          ≡ (new_place here.0 here.1 (split a s b) q').2.leaf
        → new_place here.0 here.1 (split a s b) q ≡ new_place here.0 here.1 (split a s b) q'
    own_halves q q' = elim (Bool-cases (at_most q s)) [
      | inl h ↦ elim (Bool-cases (at_most q' s)) [
        | inl h' ↦ rw (h, h') (λ e. refl)
        | inr h' ↦ rw (h, h') (λ e. absurd (differ (sym same_a ∙ e ∙ same_b)))
      ]
      | inr h ↦ elim (Bool-cases (at_most q' s)) [
        | inl h' ↦ rw (h, h') (λ e. absurd (differ (sym same_a ∙ sym e ∙ same_b)))
        | inr h' ↦ rw (h, h') (λ e. refl)
      ]
    ]

    pub IsHalf-LeafStep :
        ((l j : ℕ) → here.2.leaf ≢ l → leaf ≢ l → slot_at mem' l j ≡ slot_at mem l j)
        → ((l : ℕ) → IsLeaf mem l → IsLeaf mem' l)
        → length mem' ≡ length mem
        → inside here.0 here.1 s ≡ true
        → (k : Bytes) × (inside here.0 here.1 k ≡ true) × (before s k ≡ true)
        → LeafStep ph ph-ne-zero mem mem' here (split a s b) (λ l. leaf ≡ l) update
    IsHalf-LeafStep frame frame_leaf same_length i (k, ik, b) = record {
      grown = (u.less, v.less);
      good = λ q i. elim (Bool-cases (at_most q s)) [
        | inl h ↦ rw h (u.leaf_node, u.range)
        | inr h ↦ rw h (v.leaf_node, v.range)
      ];
      updated = λ q i. elim (Bool-cases (at_most q s)) [
        | inl h ↦ rw (lower q h) (u.updated q (in_lower q i h))
        | inr h ↦ rw (upper q h) (v.updated q (in_upper q i h))
      ];
      own_new = λ q q' i i' e. own_halves q q' e;
      origin = λ q i. elim (Bool-cases (at_most q s)) [
        | inl h ↦ rw (lower q h) (inl same_a)
        | inr h ↦ rw (upper q h) (inr (sym same_b))
      ];
      frame = λ l j x y. frame l j x y;
      frame_leaf = frame_leaf;
      same_length = same_length;
      reached = λ l. elim (ℕ_discrete here.2.leaf l) [
        | yes e ↦ inl (s, i, rw (at_most-eq s s, before_irrefl s) (same_a ∙ e))
        | no n ↦ elim (ℕ_discrete leaf l) [
          | yes e ↦ inl (k, ik, rw (at_most-eq k s, b) (same_b ∙ e))
          | no n' ↦ inr (n, n')
        ]
      ];
    }

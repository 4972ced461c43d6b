-- ===== src/Tree3/Dividing.antt =====
-- Proofs about src/engines-experimental/tree3.cc: one half of a leaf that is split, without or with
-- the new key.
use pmemkv.Base.{
  ℕ, ◌≡◌, ◌≢◌, ◌<◌, ◌∙◌, refl, sym, ap, Bool, true, false, some, Bytes, length, arith, Bool-cases,
  inl, inr,
}
use pmemkv.Tree3.{same}
use pmemkv.Tree3.Filling.{IsLeafNode, matches-in_use, matches_key}
use pmemkv.Tree3.Halves.{IsHalf}
use pmemkv.Tree3.Leaves.{
  Memory, KvLeafNode, leaf_keys, slot_at, hash_at, key_at, leaf_fill_empty_slot,
  leaf_fill_specific_slot, empty_slot,
}
use pmemkv.Tree3.Nodes.Order.{Bound, inside, less_bounds, same_iff}
use pmemkv.Tree3.Parts.{IsPart, part-IsLeafNode, leaf_value-part, matches-part, part_used}
use pmemkv.Tree3.Scanning.{empty_slot_found}
use pmemkv.Tree3.Slots.{IsLeaf, matches, leaf_value}
use pmemkv.Tree3.Steps.{update, fill-LeafStep}
use pmemkv.Tree3.Validity.{Place, IsInRange}

pub leaf_fill_empty_slot_at :
    (n : KvLeafNode) (hash : ℕ) (key value : Bytes) (mem : Memory) (slot : ℕ)
    → empty_slot leaf_keys n ≡ some slot
    → leaf_fill_empty_slot n hash key value mem ≡ leaf_fill_specific_slot n hash key value slot mem
unfolding leaf_fill_empty_slot
leaf_fill_empty_slot_at n hash key value mem slot e = rw (e, leaf_fill_empty_slot) refl

module _ (ph : Bytes → ℕ) (ph-ne-zero : (k : Bytes) → ph k ≢ 0) (mem : Memory) (here : Place)
    (v : IsLeafNode ph ph-ne-zero mem here.2) (range : IsInRange here.0 here.1 here.2)
    (key value : Bytes) (keep : ℕ → Bool) (mem' : Memory) (half : KvLeafNode)
    (p : IsPart keep mem here.2 mem' half) (lo hi : Bound) (less : less_bounds lo hi ≡ true)
    (keeps : (j : ℕ) → hash_at here.2 j ≢ 0 → keep j ≡ inside lo hi (key_at here.2 j)) where
  part_range : IsInRange lo hi half
  part_range i u =
      let used = part_used ph ph-ne-zero keep mem here.2 mem' half p i u in
      rw used.1 (sym (keeps i used.0) ∙ used.2)

  part_value :
      (q : Bytes)
      → inside lo hi q ≡ true
      → leaf_value ph ph-ne-zero leaf_keys mem' half q
        ≡ leaf_value ph ph-ne-zero leaf_keys mem here.2 q
  part_value q i = leaf_value-part ph ph-ne-zero keep mem here.2 mem' half p q (λ j m.
      keeps j (matches-in_use ph ph-ne-zero here.2 j q m)
      ∙ rw (matches_key ph ph-ne-zero here.2 j q m) i)

  part_node : IsLeafNode ph ph-ne-zero mem' half
  part_node = part-IsLeafNode ph ph-ne-zero keep mem here.2 mem' half p v

  other_key : (q : Bytes) → inside lo hi q ≡ true → inside lo hi key ≡ false → same key q ≡ false
  other_key q i o = elim (Bool-cases (same key q)) [
    | inl h ↦ let e = (same_iff key q).0 h in let i' : inside lo hi key ≡ true = rw e i in cc
    | inr h ↦ h
  ]

  -- the half that the new key does not go to
  pub idle-IsHalf :
      inside lo hi key ≡ false
      → IsHalf ph ph-ne-zero mem here (update key (some value)) mem' lo hi half
  idle-IsHalf o = record {
    less = less;
    leaf_node = part_node;
    range = part_range;
    updated = λ q i. part_value q i ∙ rw (other_key q i o) refl;
  }

  -- What the half with the new key is, and what is not touched by its write.
  pub record IsFilled (r : Memory × KvLeafNode) : Type 0 where
    pub filled_half : IsHalf ph ph-ne-zero mem here (update key (some value)) r.0 lo hi r.1
    pub filled_same : r.1.leaf ≡ half.leaf
    pub filled_frame : (l j : ℕ) → half.leaf ≢ l → slot_at r.0 l j ≡ slot_at mem' l j
    pub filled_leaf : (l : ℕ) → IsLeaf mem' l → IsLeaf r.0 l
    pub filled_length : length r.0 ≡ length mem'

  specific-IsFilled :
      (slot : ℕ)
      → slot < leaf_keys
      → hash_at half slot ≡ 0
      → inside lo hi key ≡ true
      → ((j : ℕ) → matches ph ph-ne-zero here.2 j key ≡ false)
      → IsFilled (leaf_fill_specific_slot half (ph key) key value slot mem')
  unfolding leaf_fill_specific_slot
  specific-IsFilled slot s z i fresh =
      let step =
        fill-LeafStep ph ph-ne-zero mem' (lo, hi, half) part_node part_range less key slot s value
          (λ j n.
            matches-part ph ph-ne-zero keep mem here.2 mem' half p j key
            ∙ rw (fresh j) (ground arith))
          (inl z) i in
      record {
        filled_half = record {
          less = less;
          leaf_node = (step.good key i).0;
          range = (step.good key i).1;
          updated = λ q iq. step.updated q iq ∙ ap (update key (some value) q) (part_value q iq);
        };
        filled_same = refl;
        filled_frame = λ l j h. step.frame l j h (λ e. e);
        filled_leaf = step.frame_leaf;
        filled_length = step.same_length;
      }

  -- the half that the new key goes to
  pub fill-IsFilled :
      (j : ℕ)
      → j < leaf_keys
      → hash_at half j ≡ 0
      → inside lo hi key ≡ true
      → ((i : ℕ) → matches ph ph-ne-zero here.2 i key ≡ false)
      → IsFilled (leaf_fill_empty_slot half (ph key) key value mem')
  fill-IsFilled j h z i fresh =
      let (slot, e, l, g) = empty_slot_found leaf_keys half j h z in
      rw (leaf_fill_empty_slot_at half (ph key) key value mem' slot e)
        (specific-IsFilled slot l g i fresh)

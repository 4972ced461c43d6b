-- ===== src/Tree3/Split.antt =====
-- Proofs about src/engines-experimental/tree3.cc: a full leaf is split, and a new key is written
-- into one of the two halves.
use pmemkv.Base.{
  ℕ, ◌≡◌, ◌≢◌, ◌<◌, ◌∙◌, refl, sym, Bool, true, false, not, none, some, Bytes, [], arith,
  Bool-cases, inl, inr, get_or_end, length-replicate, ltb,
}
use pmemkv.Tree3.{before}
use pmemkv.Tree3.Dividing.{idle-IsHalf, fill-IsFilled}
use pmemkv.Tree3.Filling.{IsLeafNode}
use pmemkv.Tree3.Halves.{IsHalf-LeafStep}
use pmemkv.Tree3.Leaves.{
  Memory, KvLeafNode, leaf_keys, hash_at, key_at, leaf_fill_empty_slot, new_leaf_node, move_slots,
  split_key_of, divide, fill_half,
}
use pmemkv.Tree3.Midpoint.{split_key_among, above_split_key, split_key_in}
use pmemkv.Tree3.Moving.{is_moved, IsMoved, move_slots-IsMoved}
use pmemkv.Tree3.Nodes.{split}
use pmemkv.Tree3.Nodes.Order.{Bound, inside, above, below, less_bounds, at_most-eq, before_split}
use pmemkv.Tree3.Parts.{IsPart, IsPart-frame}
use pmemkv.Tree3.Slots.{IsLeaf, IsEmpty, matches}
use pmemkv.Tree3.Splitting.{old-IsPart, new-IsPart}
use pmemkv.Tree3.Steps.{update}
use pmemkv.Tree3.Validity.{Place, LeafStep, IsInRange}

less_of_above : (lo : Bound) (s : Bytes) → above lo s ≡ true → less_bounds lo (some s) ≡ true
less_of_above none s h = refl
less_of_above (some a) s h = h

less_of_before :
    (s k : Bytes) (hi : Bound)
    → before s k ≡ true
    → below k hi ≡ true
    → less_bounds (some s) hi ≡ true
less_of_before s k none h l = refl
less_of_before s k (some b) h l = elim (Bool-cases (before s b)) [
  | inl g ↦ g
  | inr g ↦ ground (arith, at_most-eq k b, before_split s b k g)
]

module _ (ph : Bytes → ℕ) (ph-ne-zero : (k : Bytes) → ph k ≢ 0) (mem : Memory) (here : Place)
    (v : IsLeafNode ph ph-ne-zero mem here.2) (range : IsInRange here.0 here.1 here.2)
    (key value : Bytes) (full : (j : ℕ) → j < leaf_keys → hash_at here.2 j ≢ 0)
    (fresh : (j : ℕ) → matches ph ph-ne-zero here.2 j key ≡ false)
    (i : inside here.0 here.1 key ≡ true) (leaf : ℕ) (w : IsLeaf mem leaf)
    (differ : here.2.leaf ≢ leaf) (empty : IsEmpty mem leaf) where
  abbrev s : Bytes
  s = split_key_of here.2 key

  abbrev moved : Memory × KvLeafNode × KvLeafNode
  moved = move_slots leaf_keys s mem here.2 (new_leaf_node leaf)

  moved-IsMoved : IsMoved leaf_keys s mem here.2 (new_leaf_node leaf) moved
  moved-IsMoved =
      move_slots-IsMoved leaf_keys s mem here.2 (new_leaf_node leaf)
        (record {
          old_leaf = v.leaf;
          new_leaf = w;
          leaves_differ = differ;
          old_hashes_length = v.hashes_length;
          old_keys_length = v.keys_length;
          new_hashes_length = length-replicate {A = ℕ} leaf_keys 0;
          new_keys_length = length-replicate {A = Bytes} leaf_keys [];
        })
        (omega arith)

  used_below : (j : ℕ) → hash_at here.2 j ≢ 0 → j < leaf_keys
  used_below j u = elim (Bool-cases (ltb j leaf_keys)) [
    | inl h ↦ ground arith
    | inr h ↦ absurd (u (get_or_end here.2.hashes j 0 (rw v.hashes_length (ground arith))))
  ]

  gone_at :
      (j : ℕ) → hash_at here.2 j ≢ 0 → is_moved leaf_keys s here.2 j ≡ before s (key_at here.2 j)
  gone_at j u = let b = used_below j u in let e : ltb j leaf_keys ≡ true = ground arith in rw e refl

  lower_keeps :
      (j : ℕ)
      → hash_at here.2 j ≢ 0
      → not (is_moved leaf_keys s here.2 j) ≡ inside here.0 (some s) (key_at here.2 j)
  lower_keeps j u = rw (gone_at j u) (ground (arith, at_most-eq (key_at here.2 j) s, range j u))

  upper_keeps :
      (j : ℕ)
      → hash_at here.2 j ≢ 0
      → is_moved leaf_keys s here.2 j ≡ inside (some s) here.1 (key_at here.2 j)
  upper_keeps j u = rw (gone_at j u) (ground (arith, range j u))

  -- The split key is in the range of the leaf, and some key of the range is above it.
  s-inside : inside here.0 here.1 s ≡ true
  s-inside =
      split_key_among ph ph-ne-zero mem here.2 v key full fresh (λ k. inside here.0 here.1 k ≡ true)
        (λ j h. range j (full j h)) i

  less_lower : less_bounds here.0 (some s) ≡ true
  less_lower = less_of_above here.0 s (ground (arith, s-inside))

  less_upper : less_bounds (some s) here.1 ≡ true
  less_upper = elim (above_split_key ph ph-ne-zero mem here.2 v key full fresh) [
    | inl (j, l, b) ↦
        less_of_before s (key_at here.2 j) here.1 b (ground (arith, range j (full j l)))
    | inr b ↦ less_of_before s key here.1 b (ground arith)
  ]

  key_above : (k : Bytes) × (inside here.0 here.1 k ≡ true) × (before s k ≡ true)
  key_above = elim (above_split_key ph ph-ne-zero mem here.2 v key full fresh) [
    | inl (j, l, b) ↦ (key_at here.2 j, range j (full j l), b)
    | inr b ↦ (key, i, b)
  ]

  lower-IsPart : IsPart (λ j. not (is_moved leaf_keys s here.2 j)) mem here.2 moved.0 moved.1
  lower-IsPart = old-IsPart mem here.2 leaf s moved moved-IsMoved empty

  upper-IsPart : IsPart (is_moved leaf_keys s here.2) mem here.2 moved.0 moved.2
  upper-IsPart = new-IsPart mem here.2 leaf s moved moved-IsMoved empty

  -- Each half has an empty slot if the new key goes to it.
  lower_room : before s key ≡ false → (j : ℕ) × (j < leaf_keys) × (hash_at moved.1 j ≡ 0)
  lower_room h = elim (above_split_key ph ph-ne-zero mem here.2 v key full fresh) [
    | inl (j, l, b) ↦ (j, l, (lower-IsPart.goes j (rw (gone_at j (full j l), b) refl)).0)
    | inr b ↦ cc
  ]

  upper_room : before s key ≡ true → (j : ℕ) × (j < leaf_keys) × (hash_at moved.2 j ≡ 0)
  upper_room h = elim (split_key_in ph ph-ne-zero mem here.2 v key full fresh) [
    | inl (j, l, b) ↦ (j, l, (upper-IsPart.goes j (gone_at j (full j l) ∙ b)).0)
    | inr b ↦ cc
  ]

  -- The new key is above the split key.
  fill_upper :
      before s key ≡ true
      → let f = leaf_fill_empty_slot moved.2 (ph key) key value moved.0 in
        LeafStep ph ph-ne-zero mem f.0 here
          (split moved.1 s f.1)
          (λ l. leaf ≡ l)
          (update key (some value))
  fill_upper h =
      let m = moved-IsMoved in
      let (j, l, z) = upper_room h in
      let f =
        fill-IsFilled ph ph-ne-zero mem here v range key value (is_moved leaf_keys s here.2) moved.0
          moved.2 upper-IsPart (some s) here.1 less_upper upper_keeps j l z (ground arith) fresh in
      let apart : moved.2.leaf ≢ moved.1.leaf = λ e. m.pair.leaves_differ (sym e) in
      IsHalf-LeafStep ph ph-ne-zero mem _ here (update key (some value)) s moved.1 _
        (idle-IsHalf ph ph-ne-zero mem here v range key value
          (λ j. not (is_moved leaf_keys s here.2 j)) _ moved.1
          (IsPart-frame _ mem here.2 moved.0 _ moved.1 lower-IsPart
            (f.filled_leaf moved.1.leaf m.pair.old_leaf) (λ j. f.filled_frame moved.1.leaf j apart))
          here.0 (some s) less_lower lower_keeps (ground (arith, at_most-eq key s)))
        f.filled_half m.same_old leaf (f.filled_same ∙ m.same_new) differ
        (λ l j a b. f.filled_frame l j (λ e. b (sym m.same_new ∙ e)) ∙ m.others l j a b)
        (λ l a. f.filled_leaf l (m.other_leaves l a)) (f.filled_length ∙ m.same_length) s-inside
        key_above

  -- The new key is at most the split key.
  fill_lower :
      before s key ≡ false
      → let f = leaf_fill_empty_slot moved.1 (ph key) key value moved.0 in
        LeafStep ph ph-ne-zero mem f.0 here
          (split f.1 s moved.2)
          (λ l. leaf ≡ l)
          (update key (some value))
  fill_lower h =
      let m = moved-IsMoved in
      let (j, l, z) = lower_room h in
      let f =
        fill-IsFilled ph ph-ne-zero mem here v range key value
          (λ j. not (is_moved leaf_keys s here.2 j)) moved.0 moved.1 lower-IsPart here.0 (some s)
          less_lower lower_keeps j l z (ground (arith, at_most-eq key s)) fresh in
      IsHalf-LeafStep ph ph-ne-zero mem _ here (update key (some value)) s _ moved.2 f.filled_half
        (idle-IsHalf ph ph-ne-zero mem here v range key value (is_moved leaf_keys s here.2) _
          moved.2
          (IsPart-frame _ mem here.2 moved.0 _ moved.2 upper-IsPart
            (f.filled_leaf moved.2.leaf m.pair.new_leaf)
            (λ j. f.filled_frame moved.2.leaf j m.pair.leaves_differ))
          (some s) here.1 less_upper upper_keeps (rw h refl))
        (f.filled_same ∙ m.same_old) leaf m.same_new differ
        (λ l j a b. f.filled_frame l j (λ e. a (sym m.same_old ∙ e)) ∙ m.others l j a b)
        (λ l a. f.filled_leaf l (m.other_leaves l a)) (f.filled_length ∙ m.same_length) s-inside
        key_above

  pub divide-LeafStep :
      let r = divide here.2 (ph key) key value mem leaf in
      LeafStep ph ph-ne-zero mem r.0 here r.1 (λ l. leaf ≡ l) (update key (some value))
  unfolding divide fill_half
  divide-LeafStep = half (before s key) refl
    where
      half :
          (b : Bool)
          → before s key ≡ b
          → let r = fill_half b s (ph key) key value moved in
            LeafStep ph ph-ne-zero mem r.0 here r.1 (λ l. leaf ≡ l) (update key (some value))
      half true h = fill_upper h
      half false h = fill_lower h

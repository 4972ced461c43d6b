-- ===== src/Tree3/Moving.antt =====
-- Proofs about src/engines-experimental/tree3.cc: the move of the slots above the split key from a
-- full leaf to a new one.
use pmemkv.Base.{
  ℕ, zero, suc, ◌≡◌, ◌≢◌, ◌<◌, ◌≤◌, ◌∙◌, refl, sym, ap, Bool, true, false, ◌&&◌, [], Bytes, length,
  set, get_or-set, length-set, ltb, ◌==◌, if◌then◌else◌, arith, Bool-cases, inl, inr, ==_iff,
}
use pmemkv.Tree3.{before}
use pmemkv.Tree3.Leaves.{
  KvSlot, Memory, KvLeafNode, leaf_keys, slot_at, hash_at, key_at, set_slot, move_slots,
}
use pmemkv.Tree3.Slots.{IsLeaf, slot_at-set_slot, slot_at-set_slot_ne, set_slot-IsLeaf}

-- What two leaf nodes with their leaves have at one index.
abbrev pub Row : Type 0
Row = ℕ × Bytes × KvSlot × ℕ × Bytes × KvSlot

abbrev pub row : Memory → KvLeafNode → KvLeafNode → ℕ → Row
row mem old new j = (
  hash_at old j,
  key_at old j,
  slot_at mem old.leaf j,
  hash_at new j,
  key_at new j,
  slot_at mem new.leaf j,
)

-- the row after the move of its slot
abbrev pub move_row : Row → Row
move_row r = (0, [], r.5, r.0, r.1, r.2)

abbrev pub is_moved : ℕ → Bytes → KvLeafNode → ℕ → Bool
is_moved k split_key old j = ltb j k && before split_key (key_at old j)

moved_above :
    (slot j : ℕ) (above : Bool)
    → (j == slot) ≡ false
    → (ltb j slot && above) ≡ (ltb j (suc slot) && above)
moved_above slot j above h = ground arith

moved_same :
    (slot j : ℕ) (above : ℕ → Bool)
    → above slot ≡ false
    → (ltb j slot && above j) ≡ (ltb j (suc slot) && above j)
moved_same slot j above b = elim (Bool-cases (j == slot)) [
  | inl h ↦ rw ((==_iff j slot).0 h, b) (ground arith)
  | inr h ↦ moved_above slot j (above j) h
]

-- A row that was moved alone, and then with the rows below it.
rows_step :
    (before_move after_move : Row) (e t u : Bool)
    → after_move ≡ (if e then move_row before_move else before_move)
    → (e ≡ true → t ≡ false)
    → (e ≡ true → u ≡ true)
    → (e ≡ false → t ≡ u)
    → (if t then move_row after_move else after_move)
      ≡ (if u then move_row before_move else before_move)
rows_step x y true t u h a b c = rw (a refl, b refl) h
rows_step x y false t u h a b c = rw (c refl) (ap (λ (r : Row). if u then move_row r else r) h)

-- two different leaf nodes of full length with leaves in the memory
pub record ArePair (mem : Memory) (old new : KvLeafNode) : Type 0 where
  pub old_leaf : IsLeaf mem old.leaf
  pub new_leaf : IsLeaf mem new.leaf
  pub leaves_differ : old.leaf ≢ new.leaf
  pub old_hashes_length : length old.hashes ≡ leaf_keys
  pub old_keys_length : length old.keys ≡ leaf_keys
  pub new_hashes_length : length new.hashes ≡ leaf_keys
  pub new_keys_length : length new.keys ≡ leaf_keys

-- What the move makes of the rows, and what it leaves.
pub record IsMoved (k : ℕ) (split_key : Bytes) (mem : Memory) (old new : KvLeafNode)
    (r : Memory × KvLeafNode × KvLeafNode) : Type 0 where
  pub rows :
      (j : ℕ)
      → row r.0 r.1 r.2 j
        ≡ (if is_moved k split_key old j then move_row (row mem old new j) else row mem old new j)
  pub pair : ArePair r.0 r.1 r.2
  pub same_old : r.1.leaf ≡ old.leaf
  pub same_new : r.2.leaf ≡ new.leaf
  pub others :
      (leaf j : ℕ) → old.leaf ≢ leaf → new.leaf ≢ leaf → slot_at r.0 leaf j ≡ slot_at mem leaf j
  pub other_leaves : (leaf : ℕ) → IsLeaf mem leaf → IsLeaf r.0 leaf
  pub same_length : length r.0 ≡ length mem

module _ (mem : Memory) (old new : KvLeafNode) (v : ArePair mem old new) (slot : ℕ)
    (s : slot < leaf_keys) where
  abbrev half : Memory
  half = set_slot mem new.leaf slot (slot_at mem old.leaf slot)

  abbrev swapped : Memory
  swapped = set_slot half old.leaf slot (slot_at mem new.leaf slot)

  abbrev new' : KvLeafNode
  new' = record new {
    hashes = set new.hashes slot (hash_at old slot);
    keys = set new.keys slot (key_at old slot);
  }

  abbrev old' : KvLeafNode
  old' = record old { hashes = set old.hashes slot 0; keys = set old.keys slot [] }

  half_leaf : IsLeaf half old.leaf
  half_leaf = set_slot-IsLeaf mem new.leaf slot _ old.leaf v.old_leaf

  row-swapped :
      (j : ℕ)
      → row swapped old' new' j
        ≡ (if j == slot then move_row (row mem old new j) else row mem old new j)
  row-swapped j =
      rw
        (
          get_or-set old.hashes slot j 0 0 (rw v.old_hashes_length s),
          get_or-set old.keys slot j [] [] (rw v.old_keys_length s),
          get_or-set new.hashes slot j (hash_at old slot) 0 (rw v.new_hashes_length s),
          get_or-set new.keys slot j (key_at old slot) [] (rw v.new_keys_length s),
          slot_at-set_slot half old.leaf slot (slot_at mem new.leaf slot) j half_leaf s,
          slot_at-set_slot_ne half old.leaf slot (slot_at mem new.leaf slot) new.leaf j
              v.leaves_differ,
          slot_at-set_slot mem new.leaf slot (slot_at mem old.leaf slot) j v.new_leaf s,
          slot_at-set_slot_ne mem new.leaf slot (slot_at mem old.leaf slot) old.leaf j
              (λ e. v.leaves_differ (sym e)),
        )
        (elim (Bool-cases (j == slot)) [
          | inl h ↦ rw (h, (==_iff j slot).0 h) refl
          | inr h ↦ rw h refl
        ])

  pair_swapped : ArePair swapped old' new'
  pair_swapped = record {
    old_leaf = set_slot-IsLeaf half old.leaf slot _ old.leaf half_leaf;
    new_leaf =
        set_slot-IsLeaf half old.leaf slot _ new.leaf
          (set_slot-IsLeaf mem new.leaf slot _ new.leaf v.new_leaf);
    leaves_differ = v.leaves_differ;
    old_hashes_length = length-set old.hashes slot 0 ∙ v.old_hashes_length;
    old_keys_length = length-set old.keys slot [] ∙ v.old_keys_length;
    new_hashes_length = length-set new.hashes slot (hash_at old slot) ∙ v.new_hashes_length;
    new_keys_length = length-set new.keys slot (key_at old slot) ∙ v.new_keys_length;
  }

  moved_below :
      (split_key : Bytes) (j : ℕ) → (j == slot) ≡ true → is_moved slot split_key old' j ≡ false
  moved_below split_key j h = let e : ltb j slot ≡ false = ground arith in rw e refl

  moved_here :
      (split_key : Bytes) (j : ℕ)
      → (j == slot) ≡ true
      → before split_key (key_at old slot) ≡ true
      → is_moved (suc slot) split_key old j ≡ true
  moved_here split_key j h b =
      let e : ltb slot (suc slot) ≡ true = ground arith in rw ((==_iff j slot).0 h, e, b) refl

  moved_else :
      (split_key : Bytes) (j : ℕ)
      → (j == slot) ≡ false
      → is_moved slot split_key old' j ≡ is_moved (suc slot) split_key old j
  moved_else split_key j h =
      rw (get_or-set old.keys slot j [] [] (rw v.old_keys_length s), h)
        (moved_above slot j (before split_key (key_at old j)) h)

  -- The move of one slot, and then of those below it.
  IsMoved-step :
      (split_key : Bytes) (r : Memory × KvLeafNode × KvLeafNode)
      → before split_key (key_at old slot) ≡ true
      → IsMoved slot split_key swapped old' new' r
      → IsMoved (suc slot) split_key mem old new r
  IsMoved-step split_key r b w = record {
    rows = λ j.
        w.rows j
        ∙ rows_step _ _ (j == slot) _ _ (row-swapped j) (moved_below split_key j)
            (λ h. moved_here split_key j h b) (moved_else split_key j);
    pair = w.pair;
    same_old = w.same_old;
    same_new = w.same_new;
    others = λ leaf j a c.
        w.others leaf j a c
        ∙ slot_at-set_slot_ne half old.leaf slot _ leaf j a
        ∙ slot_at-set_slot_ne mem new.leaf slot _ leaf j c;
    other_leaves = λ leaf i.
        w.other_leaves leaf
          (set_slot-IsLeaf half old.leaf slot _ leaf (set_slot-IsLeaf mem new.leaf slot _ leaf i));
    same_length = w.same_length ∙ length-set half old.leaf _ ∙ length-set mem new.leaf _;
  }

-- The loop that swaps slots one by one, over the first slots of two different leaves, does to each
-- row of hashes, keys and slots what its own key asks for: a row above the split key is moved as a
-- whole and cleared where it was, and no other row, leaf or length changes.
pub move_slots-IsMoved :
    (k : ℕ) (split_key : Bytes) (mem : Memory) (old new : KvLeafNode)
    → ArePair mem old new
    → k ≤ leaf_keys
    → IsMoved k split_key mem old new (move_slots k split_key mem old new)
unfolding move_slots
move_slots-IsMoved zero split_key mem old new v h = record {
  rows = λ j. ground arith;
  pair = v;
  same_old = refl;
  same_new = refl;
  others = λ leaf j a c. refl;
  other_leaves = λ leaf i. i;
  same_length = refl;
}
move_slots-IsMoved (suc slot) split_key mem old new v h =
    elim (Bool-cases (before split_key (key_at old slot))) [
      | inl b ↦ rw b (
          IsMoved-step mem old new v slot h split_key _ b (
            move_slots-IsMoved slot split_key (swapped mem old new v slot h)
              (old' mem old new v slot h) (new' mem old new v slot h)
              (pair_swapped mem old new v slot h) (omega arith)))
      | inr b ↦
          let w = move_slots-IsMoved slot split_key mem old new v (omega arith) in
          rw b (record {
            rows = λ j.
                w.rows j
                ∙ ap (λ (t : Bool). if t then move_row (row mem old new j) else row mem old new j)
                    (moved_same slot j (λ i. before split_key (key_at old i)) b);
            pair = w.pair;
            same_old = w.same_old;
            same_new = w.same_new;
            others = w.others;
            other_leaves = w.other_leaves;
            same_length = w.same_length;
          })
    ]

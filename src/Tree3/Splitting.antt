-- ===== src/Tree3/Splitting.antt =====
-- Proofs about src/engines-experimental/tree3.cc: the two halves of a full leaf.
use pmemkv.Base.{ℕ, ◌≡◌, ◌∙◌, refl, sym, ap, Bool, true, false, not, Bytes, get_or-replicate}
use pmemkv.Tree3.Leaves.{Memory, KvLeafNode, leaf_keys, new_leaf_node}
use pmemkv.Tree3.Moving.{Row, row, move_row, is_moved, IsMoved}
use pmemkv.Tree3.Parts.{IsPart}
use pmemkv.Tree3.Slots.{IsEmpty}

module _ (mem : Memory) (n : KvLeafNode) (leaf : ℕ) (split_key : Bytes)
    (r : Memory × KvLeafNode × KvLeafNode)
    (w : IsMoved leaf_keys split_key mem n (new_leaf_node leaf) r) (empty : IsEmpty mem leaf) where
  -- whether the slot of an index was moved
  abbrev pub gone : ℕ → Bool
  gone = is_moved leaf_keys split_key n

  row-gone :
      (j : ℕ) → gone j ≡ true → row r.0 r.1 r.2 j ≡ move_row (row mem n (new_leaf_node leaf) j)
  row-gone j h = w.rows j ∙ rw h refl

  row-stays : (j : ℕ) → gone j ≡ false → row r.0 r.1 r.2 j ≡ row mem n (new_leaf_node leaf) j
  row-stays j h = w.rows j ∙ rw h refl

  opposite : (b : Bool) → not b ≡ true → b ≡ false
  opposite true h = sym h
  opposite false h = refl

  opposite_back : (b : Bool) → not b ≡ false → b ≡ true
  opposite_back true h = refl
  opposite_back false h = sym h

  -- The old leaf keeps the slots up to the split key.
  pub old-IsPart : IsPart (λ j. not (gone j)) mem n r.0 r.1
  old-IsPart = record {
    leaf = w.pair.old_leaf;
    hashes_length = w.pair.old_hashes_length;
    keys_length = w.pair.old_keys_length;
    stays = λ j h.
        let e = row-stays j (opposite (gone j) h) in
        (ap (λ (x : Row). x.0) e, ap (λ (x : Row). x.1) e, ap (λ (x : Row). x.2) e);
    goes = λ j h.
        let e = row-gone j (opposite_back (gone j) h) in
        (ap (λ (x : Row). x.0) e, ap (λ (x : Row). x.2) e ∙ empty j);
  }

  -- The new leaf gets the others.
  pub new-IsPart : IsPart gone mem n r.0 r.2
  new-IsPart = record {
    leaf = w.pair.new_leaf;
    hashes_length = w.pair.new_hashes_length;
    keys_length = w.pair.new_keys_length;
    stays = λ j h.
        let e = row-gone j h in
        (ap (λ (x : Row). x.3) e, ap (λ (x : Row). x.4) e, ap (λ (x : Row). x.5) e);
    goes = λ j h.
        let e = row-stays j h in
        (
          ap (λ (x : Row). x.3) e ∙ get_or-replicate leaf_keys j 0,
          ap (λ (x : Row). x.5) e ∙ empty j,
        );
  }

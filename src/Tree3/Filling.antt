-- ===== src/Tree3/Filling.antt =====
-- Proofs about src/engines-experimental/tree3.cc: a leaf node with its persistent leaf, and the
-- write of a key and a value into one slot.
use pmemkv.Base.{
  ℕ, ◌≡◌, ◌≢◌, ◌<◌, ◌∙◌, refl, sym, ap, true, false, ◌&&◌, [], none, some, Bytes, length,
  get_or-set, length-set, ◌==◌, if◌then◌else◌, arith, Bool-cases, inl, inr, ==_iff,
}
use pmemkv.Tree3.{same}
use pmemkv.Tree3.Leaves.{
  KvSlot, Memory, KvLeafNode, leaf_keys, slot_at, hash_at, key_at, leaf_fill_specific_slot,
}
use pmemkv.Tree3.Nodes.Order.{same_iff}
use pmemkv.Tree3.Slots.{
  IsLeaf, matches, value_in, leaf_value, slot_at-set_slot, slot_at-set_slot_ne, set_slot-IsLeaf,
  leaf_value-congr, leaf_value_at,
}

-- The slot has a buffer with the hash and the key.
abbrev pub Stores : KvSlot → ℕ → Bytes → Type 0
Stores none hash key = ⊥
Stores (some b) hash key = (b.ph ≡ hash) × (b.key ≡ key)

module _ (ph : Bytes → ℕ) (ph-ne-zero : (k : Bytes) → ph k ≢ 0) where
  -- Each slot in use has the hash of its key and a buffer with both, no other slot has a buffer,
  -- and no key has two slots.
  pub record IsLeafNode (mem : Memory) (n : KvLeafNode) : Type 0 where
    pub leaf : IsLeaf mem n.leaf
    pub hashes_length : length n.hashes ≡ leaf_keys
    pub keys_length : length n.keys ≡ leaf_keys
    pub hashed : (i : ℕ) → hash_at n i ≢ 0 → hash_at n i ≡ ph (key_at n i)
    pub distinct :
        (i j : ℕ) (q : Bytes)
        → matches ph ph-ne-zero n i q ≡ true
        → matches ph ph-ne-zero n j q ≡ true
        → i ≡ j
    pub stored :
        (i : ℕ) → hash_at n i ≢ 0 → Stores (slot_at mem n.leaf i) (hash_at n i) (key_at n i)
    pub cleared : (i : ℕ) → hash_at n i ≡ 0 → slot_at mem n.leaf i ≡ none

  pub matches-in_use :
      (n : KvLeafNode) (i : ℕ) (q : Bytes) → matches ph ph-ne-zero n i q ≡ true → hash_at n i ≢ 0
  matches-in_use n i q h = ground (arith, ph-ne-zero q)

  pub empty_unmatched :
      (n : KvLeafNode) (i : ℕ) (q : Bytes) → hash_at n i ≡ 0 → matches ph ph-ne-zero n i q ≡ false
  empty_unmatched n i q h = rw h (ground (arith, ph-ne-zero q))

  pub matches_key :
      (n : KvLeafNode) (i : ℕ) (q : Bytes) → matches ph ph-ne-zero n i q ≡ true → key_at n i ≡ q
  matches_key n i q h = ground (arith, same_iff (key_at n i) q)

  -- the slot of a new key, as good as any other slot that the key does not stand in
  module _ (mem : Memory) (n : KvLeafNode) (v : IsLeafNode mem n) (key value : Bytes) (slot : ℕ)
      (s : slot < leaf_keys)
      (only : (j : ℕ) → j ≢ slot → matches ph ph-ne-zero n j key ≡ false) where
    abbrev pub filled : Memory × KvLeafNode
    filled = leaf_fill_specific_slot n (ph key) key value slot mem

    hash_at-filled : (j : ℕ) → hash_at filled.1 j ≡ (if j == slot then ph key else hash_at n j)
    unfolding leaf_fill_specific_slot
    hash_at-filled j = get_or-set n.hashes slot j (ph key) 0 (rw v.hashes_length s)

    key_at-filled : (j : ℕ) → key_at filled.1 j ≡ (if j == slot then key else key_at n j)
    unfolding leaf_fill_specific_slot
    key_at-filled j = get_or-set n.keys slot j key [] (rw v.keys_length s)

    slot_at-filled :
        (j : ℕ)
        → slot_at filled.0 n.leaf j ≡ (
            if j == slot
            then some (record { ph = ph key; key = key; value = value })
            else slot_at mem n.leaf j)
    unfolding leaf_fill_specific_slot
    slot_at-filled j = slot_at-set_slot mem n.leaf slot _ j v.leaf s

    same_hash : (q : Bytes) → (ph key == ph q && same key q) ≡ same key q
    same_hash q = elim (Bool-cases (same key q)) [
      | inl h ↦
          let e : ph key ≡ ph q = ap ph ((same_iff key q).0 h) in
          rw (h, (==_iff (ph key) (ph q)).1 e) refl
      | inr h ↦ rw h (ground arith)
    ]

    matches-filled :
        (j : ℕ) (q : Bytes)
        → matches ph ph-ne-zero filled.1 j q
          ≡ (if j == slot then same key q else matches ph ph-ne-zero n j q)
    matches-filled j q =
        rw (hash_at-filled j, key_at-filled j)
          (elim (Bool-cases (j == slot)) [ inl h ↦ rw h (same_hash q) | inr h ↦ rw h refl ])

    -- where a filled slot stands for a key
    matched_here :
        (j : ℕ) (q : Bytes)
        → (j == slot) ≡ true
        → matches ph ph-ne-zero filled.1 j q ≡ true
        → key ≡ q
    matched_here j q h m = (same_iff key q).0 (sym (matches-filled j q ∙ rw h refl) ∙ m)

    matched_there :
        (j : ℕ) (q : Bytes)
        → (j == slot) ≡ false
        → matches ph ph-ne-zero filled.1 j q ≡ true
        → matches ph ph-ne-zero n j q ≡ true
    matched_there j q h m = sym (matches-filled j q ∙ rw h refl) ∙ m

    not_both :
        (i j : ℕ) (q : Bytes)
        → (i == slot) ≡ true
        → (j == slot) ≡ false
        → matches ph ph-ne-zero filled.1 i q ≡ true
        → matches ph ph-ne-zero filled.1 j q ≡ true
        → i ≡ j
    not_both i j q g h a b =
        let m : matches ph ph-ne-zero n j key ≡ true =
          rw (matched_here i q g a) (matched_there j q h b) in
        let n' = only j (λ e. cc ((==_iff j slot).1 e)) in cc

    distinct_filled :
        (i j : ℕ) (q : Bytes)
        → matches ph ph-ne-zero filled.1 i q ≡ true
        → matches ph ph-ne-zero filled.1 j q ≡ true
        → i ≡ j
    distinct_filled i j q a b = elim (Bool-cases (i == slot)) [
      | inl g ↦ elim (Bool-cases (j == slot)) [
        | inl h ↦ ground arith
        | inr h ↦ not_both i j q g h a b
      ]
      | inr g ↦ elim (Bool-cases (j == slot)) [
        | inl h ↦ sym (not_both j i q h g b a)
        | inr h ↦ v.distinct i j q (matched_there i q g a) (matched_there j q h b)
      ]
    ]

    hashed_filled : (i : ℕ) → hash_at filled.1 i ≢ 0 → hash_at filled.1 i ≡ ph (key_at filled.1 i)
    hashed_filled i =
        rw (hash_at-filled i, key_at-filled i)
          (elim (Bool-cases (i == slot)) [ inl h ↦ rw h (λ u. refl) | inr h ↦ rw h (v.hashed i) ])

    stored_filled :
        (i : ℕ)
        → hash_at filled.1 i ≢ 0
        → Stores (slot_at filled.0 n.leaf i) (hash_at filled.1 i) (key_at filled.1 i)
    stored_filled i =
        rw (hash_at-filled i, key_at-filled i, slot_at-filled i)
          (elim (Bool-cases (i == slot)) [
            | inl h ↦ rw h (λ u. (refl, refl))
            | inr h ↦ rw h (v.stored i)
          ])

    cleared_filled : (i : ℕ) → hash_at filled.1 i ≡ 0 → slot_at filled.0 n.leaf i ≡ none
    cleared_filled i =
        rw (hash_at-filled i, slot_at-filled i)
          (elim (Bool-cases (i == slot)) [
            | inl h ↦ rw h (λ z. absurd (ph-ne-zero key z))
            | inr h ↦ rw h (v.cleared i)
          ])

    pub filled-IsLeafNode : IsLeafNode filled.0 filled.1
    unfolding leaf_fill_specific_slot
    filled-IsLeafNode = record {
      leaf = set_slot-IsLeaf mem n.leaf slot _ n.leaf v.leaf;
      hashes_length = length-set n.hashes slot (ph key) ∙ v.hashes_length;
      keys_length = length-set n.keys slot key ∙ v.keys_length;
      hashed = hashed_filled;
      distinct = distinct_filled;
      stored = stored_filled;
      cleared = cleared_filled;
    }

    here : (slot == slot) ≡ true
    here = ground arith

    others_unmatched : (j : ℕ) → j ≢ slot → matches ph ph-ne-zero filled.1 j key ≡ false
    others_unmatched j u =
        let h : (j == slot) ≡ false = ground arith in matches-filled j key ∙ rw h (only j u)

    pub leaf_value-filled :
        (q : Bytes)
        → (key ≢ q → matches ph ph-ne-zero n slot q ≡ false)
        → leaf_value ph ph-ne-zero leaf_keys filled.0 filled.1 q
          ≡ (if same key q then some value else leaf_value ph ph-ne-zero leaf_keys mem n q)
    unfolding leaf_fill_specific_slot
    leaf_value-filled q other = elim (Bool-cases (same key q)) [
      | inl h ↦
          rw (h, ← (same_iff key q).0 h)
            (leaf_value_at ph ph-ne-zero leaf_keys filled.0 filled.1 key slot s
                (matches-filled slot key ∙ rw here ((same_iff key key).1 refl)) others_unmatched
              ∙ ap (λ (kv : KvSlot). value_in ph ph-ne-zero kv) (slot_at-filled slot)
              ∙ rw here refl)
      | inr h ↦
          let u = other (λ e. cc ((same_iff key q).1 e)) in
          rw h (
            leaf_value-congr ph ph-ne-zero leaf_keys mem filled.0 n filled.1 q
              (λ j. matches-filled j q ∙ elim (Bool-cases (j == slot)) [
                | inl e ↦ rw (e, h, (==_iff j slot).0 e, u) refl
                | inr e ↦ rw e refl
              ])
              (λ j m. slot_at-filled j ∙ elim (Bool-cases (j == slot)) [
                | inl e ↦
                    let m' : matches ph ph-ne-zero n slot q ≡ true =
                      rw ((==_iff j slot).0 e) at m in
                    cc
                | inr e ↦ rw e refl
              ]))
    ]

    -- What holds of the new key and of all others holds of the keys afterwards.
    pub filled_keys :
        (P : Bytes → Type 0)
        → P key
        → ((i : ℕ) → hash_at n i ≢ 0 → P (key_at n i))
        → (i : ℕ) → hash_at filled.1 i ≢ 0
        → P (key_at filled.1 i)
    filled_keys P p f i =
        rw (hash_at-filled i, key_at-filled i)
          (elim (Bool-cases (i == slot)) [ inl h ↦ rw h (λ u. p) | inr h ↦ rw h (f i) ])

    pub filled_frame : (l j : ℕ) → n.leaf ≢ l → slot_at filled.0 l j ≡ slot_at mem l j
    unfolding leaf_fill_specific_slot
    filled_frame l j h = slot_at-set_slot_ne mem n.leaf slot _ l j h

    pub filled_leaves : (l : ℕ) → IsLeaf mem l → IsLeaf filled.0 l
    unfolding leaf_fill_specific_slot
    filled_leaves l h = set_slot-IsLeaf mem n.leaf slot _ l h

    pub filled_length : length filled.0 ≡ length mem
    unfolding leaf_fill_specific_slot
    filled_length = length-set mem n.leaf _

    pub same_leaf : filled.1.leaf ≡ n.leaf
    unfolding leaf_fill_specific_slot
    same_leaf = refl

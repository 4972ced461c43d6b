-- ===== src/Tree3/Parts.antt =====
-- Proofs about src/engines-experimental/tree3.cc: a leaf node from which some slots are taken away.
use pmemkv.Base.{
  ℕ, ◌≡◌, ◌≢◌, ◌∙◌, refl, sym, none, Bool, true, false, ◌&&◌, Bytes, length, arith, Bool-cases, inl,
  inr,
}
use pmemkv.Tree3.Filling.{IsLeafNode}
use pmemkv.Tree3.Leaves.{Memory, KvLeafNode, leaf_keys, slot_at, hash_at, key_at}
use pmemkv.Tree3.Slots.{IsLeaf, matches, leaf_value, leaf_value-congr}

-- `n'` has the slots of `n` that `keep` names, and no others in use.
pub record IsPart (keep : ℕ → Bool) (mem : Memory) (n : KvLeafNode) (mem' : Memory)
    (n' : KvLeafNode) : Type 0 where
  pub leaf : IsLeaf mem' n'.leaf
  pub hashes_length : length n'.hashes ≡ leaf_keys
  pub keys_length : length n'.keys ≡ leaf_keys
  pub stays :
      (j : ℕ)
      → keep j ≡ true
      → (hash_at n' j ≡ hash_at n j)
        × (key_at n' j ≡ key_at n j)
        × (slot_at mem' n'.leaf j ≡ slot_at mem n.leaf j)
  pub goes : (j : ℕ) → keep j ≡ false → (hash_at n' j ≡ 0) × (slot_at mem' n'.leaf j ≡ none)

module _ (ph : Bytes → ℕ) (ph-ne-zero : (k : Bytes) → ph k ≢ 0) (keep : ℕ → Bool) (mem : Memory)
    (n : KvLeafNode) (mem' : Memory) (n' : KvLeafNode) (w : IsPart keep mem n mem' n') where
  pub matches-part :
      (j : ℕ) (q : Bytes) → matches ph ph-ne-zero n' j q ≡ (keep j && matches ph ph-ne-zero n j q)
  matches-part j q = elim (Bool-cases (keep j)) [
    | inl h ↦ rw (h, (w.stays j h).0, (w.stays j h).1) refl
    | inr h ↦ rw (h, (w.goes j h).0) (ground (arith, ph-ne-zero q))
  ]

  matches-whole :
      (j : ℕ) (q : Bytes) → matches ph ph-ne-zero n' j q ≡ true → matches ph ph-ne-zero n j q ≡ true
  matches-whole j q h =
      let e = matches-part j q in
      elim (Bool-cases (matches ph ph-ne-zero n j q)) [
        | inl m ↦ m
        | inr m ↦ elim (Bool-cases (keep j)) [
          | inl k ↦ let e' : matches ph ph-ne-zero n' j q ≡ false = e ∙ rw (k, m) refl in cc
          | inr k ↦ let e' : matches ph ph-ne-zero n' j q ≡ false = e ∙ rw k refl in cc
        ]
      ]

  kept_of_used : (j : ℕ) → hash_at n' j ≢ 0 → keep j ≡ true
  kept_of_used j h = elim (Bool-cases (keep j)) [ inl k ↦ k | inr k ↦ absurd (h (w.goes j k).0) ]

  -- A slot in use is one that was kept.
  pub part_used :
      (j : ℕ) → hash_at n' j ≢ 0 → (hash_at n j ≢ 0) × (key_at n' j ≡ key_at n j) × (keep j ≡ true)
  part_used j h = let k = kept_of_used j h in let s = w.stays j k in ((λ e. h (s.0 ∙ e)), s.1, k)

  -- What is left of a leaf node is one.
  pub part-IsLeafNode : IsLeafNode ph ph-ne-zero mem n → IsLeafNode ph ph-ne-zero mem' n'
  part-IsLeafNode v = record {
    leaf = w.leaf;
    hashes_length = w.hashes_length;
    keys_length = w.keys_length;
    hashed = λ i h.
        let s = w.stays i (kept_of_used i h) in rw (s.0, s.1) (v.hashed i (λ e. h (s.0 ∙ e)));
    distinct = λ i j q a b. v.distinct i j q (matches-whole i q a) (matches-whole j q b);
    stored = λ i h.
        let s = w.stays i (kept_of_used i h) in rw (s.0, s.1, s.2) (v.stored i (λ e. h (s.0 ∙ e)));
    cleared = λ i z. elim (Bool-cases (keep i)) [
      | inl k ↦ let s = w.stays i k in s.2 ∙ v.cleared i (sym s.0 ∙ z)
      | inr k ↦ (w.goes i k).1
    ];
  }

  -- A key that is not taken away has the value that it had.
  pub leaf_value-part :
      (q : Bytes)
      → ((j : ℕ) → matches ph ph-ne-zero n j q ≡ true → keep j ≡ true)
      → leaf_value ph ph-ne-zero leaf_keys mem' n' q ≡ leaf_value ph ph-ne-zero leaf_keys mem n q
  leaf_value-part q f =
      leaf_value-congr ph ph-ne-zero leaf_keys mem mem' n n' q
        (λ j. elim (Bool-cases (matches ph ph-ne-zero n j q)) [
          | inl m ↦ matches-part j q ∙ rw (f j m) refl
          | inr m ↦ matches-part j q ∙ rw m (ground arith)
        ])
        (λ j m. (w.stays j (f j m)).2)

-- A part stays one where another leaf is written.
pub IsPart-frame :
    (keep : ℕ → Bool) (mem : Memory) (n : KvLeafNode) (mem' mem2 : Memory) (n' : KvLeafNode)
    → IsPart keep mem n mem' n'
    → IsLeaf mem2 n'.leaf
    → ((j : ℕ) → slot_at mem2 n'.leaf j ≡ slot_at mem' n'.leaf j)
    → IsPart keep mem n mem2 n'
IsPart-frame keep mem n mem' mem2 n' w l f = record {
  leaf = l;
  hashes_length = w.hashes_length;
  keys_length = w.keys_length;
  stays = λ j h. ((w.stays j h).0, (w.stays j h).1, f j ∙ (w.stays j h).2);
  goes = λ j h. ((w.goes j h).0, f j ∙ (w.goes j h).1);
}

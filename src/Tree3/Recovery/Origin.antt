-- ===== src/Tree3/Recovery/Origin.antt =====
-- Proofs about src/engines-experimental/tree3.cc: what `Recover` reads from a leaf of a valid tree
-- is the leaf node of that tree.
use native.Mathlib.Decide.{ℕ_discrete}
use pmemkv.Base.{
  ℕ, zero, suc, ◌≡◌, ◌≢◌, ◌<◌, ◌∙◌, refl, sym, ap, true, false, [], Option, none, some, Bytes,
  length, get_or, get_or_end, get_or-replicate, length-replicate, length-set, ltb, ◌==◌, arith,
  Bool-cases, Option-cases, inl, inr,
}
use pmemkv.Tree3.Filling.{IsLeafNode, Stores}
use pmemkv.Tree3.Leaves.{
  Buffer, KvSlot, KvLeaf, Memory, KvLeafNode, leaf_keys, no_leaf, slot_at, hash_at, key_at,
  new_leaf_node,
}
use pmemkv.Tree3.Reading.{IsRead, Holds, Covers, recover_slots-IsRead}
use pmemkv.Tree3.Recovery.{recover_slot, recover_slots}
use pmemkv.Tree3.Slots.{IsEmpty, matches, leaf_value, leaf_value-congr}

recover_slot-shape :
    (slot : ℕ) (kv : KvSlot) (n : KvLeafNode) (m : Option Bytes)
    → let r = recover_slot slot kv n m in
      (r.0.leaf ≡ n.leaf)
      × (length r.0.hashes ≡ length n.hashes)
      × (length r.0.keys ≡ length n.keys)
unfolding recover_slot
recover_slot-shape slot none n m = (refl, refl, refl)
recover_slot-shape slot (some b) n m = elim (Bool-cases (b.ph == 0)) [
  | inl e ↦ rw e (refl, length-set n.hashes slot b.ph, refl)
  | inr e ↦ rw e (refl, length-set n.hashes slot b.ph, length-set n.keys slot b.key)
]

recover_slots-shape :
    (k : ℕ) (slots : KvLeaf) (n : KvLeafNode) (m : Option Bytes)
    → let r = recover_slots k slots n m in
      (r.0.leaf ≡ n.leaf)
      × (length r.0.hashes ≡ length n.hashes)
      × (length r.0.keys ≡ length n.keys)
unfolding recover_slots
recover_slots-shape zero slots n m = (refl, refl, refl)
recover_slots-shape (suc k) slots n m =
    let r = recover_slot k (get_or slots k none) n m in
    let (a, b, c) = recover_slot-shape k (get_or slots k none) n m in
    let (d, e, f) = recover_slots-shape k slots r.0 r.1 in (d ∙ a, e ∙ b, f ∙ c)

module _ (ph : Bytes → ℕ) (ph-ne-zero : (k : Bytes) → ph k ≢ 0) where
  -- The node has the slots in use of another one, and their leaf.
  pub record Agrees (n n' : KvLeafNode) : Type 0 where
    pub leaf : n.leaf ≡ n'.leaf
    pub hashes_length : length n.hashes ≡ leaf_keys
    pub keys_length : length n.keys ≡ leaf_keys
    pub hashes : (j : ℕ) → hash_at n j ≡ hash_at n' j
    pub keys : (j : ℕ) → hash_at n' j ≢ 0 → key_at n j ≡ key_at n' j

  module _ (n n' : KvLeafNode) (a : Agrees n n') where
    pub matches-Agrees :
        (j : ℕ) (q : Bytes) → matches ph ph-ne-zero n j q ≡ matches ph ph-ne-zero n' j q
    matches-Agrees j q = elim (ℕ_discrete (hash_at n' j) 0) [
      | yes z ↦ rw (a.hashes j, z) (ground (arith, ph-ne-zero q))
      | no u ↦ rw (a.hashes j, a.keys j u) refl
    ]

    pub leaf_value-Agrees :
        (mem : Memory) (q : Bytes)
        → leaf_value ph ph-ne-zero leaf_keys mem n q ≡ leaf_value ph ph-ne-zero leaf_keys mem n' q
    leaf_value-Agrees mem q =
        leaf_value-congr ph ph-ne-zero leaf_keys mem mem n' n q (λ j. matches-Agrees j q)
          (λ j m. ap (λ (l : ℕ). slot_at mem l j) a.leaf)

    pub Agrees-IsLeafNode :
        (mem : Memory) → IsLeafNode ph ph-ne-zero mem n' → IsLeafNode ph ph-ne-zero mem n
    Agrees-IsLeafNode mem v = record {
      leaf = rw a.leaf v.leaf;
      hashes_length = a.hashes_length;
      keys_length = a.keys_length;
      hashed = λ i u.
          let u' : hash_at n' i ≢ 0 = λ z. u (a.hashes i ∙ z) in
          a.hashes i ∙ v.hashed i u' ∙ ap ph (sym (a.keys i u'));
      distinct = λ i j q x y.
          v.distinct i j q (sym (matches-Agrees i q) ∙ x) (sym (matches-Agrees j q) ∙ y);
      stored = λ i u.
          let u' : hash_at n' i ≢ 0 = λ z. u (a.hashes i ∙ z) in
          rw (a.leaf, a.hashes i, a.keys i u') (v.stored i u');
      cleared = λ i z. ap (λ (l : ℕ). slot_at mem l i) a.leaf ∙ v.cleared i (sym (a.hashes i) ∙ z);
    }

  -- What a slot of a leaf node is: cleared, or in use with its buffer.
  pub data SlotFact (mem : Memory) (n : KvLeafNode) (j : ℕ) : Type 0 where
    unused : hash_at n j ≡ 0 → slot_at mem n.leaf j ≡ none → SlotFact mem n j
    used :
        (b : Buffer)
        → slot_at mem n.leaf j ≡ some b
        → b.ph ≡ hash_at n j
        → b.key ≡ key_at n j
        → hash_at n j ≢ 0
        → j < leaf_keys
        → SlotFact mem n j

  pub slot_fact :
      (mem : Memory) (n : KvLeafNode) (j : ℕ) → IsLeafNode ph ph-ne-zero mem n → SlotFact mem n j
  slot_fact mem n j v = elim (ℕ_discrete (hash_at n j) 0) [
    | yes z ↦ unused z (v.cleared j z)
    | no u ↦ elim (Option-cases (slot_at mem n.leaf j)) [
      | inl e ↦ let e2 : ⊥ = rw e at (v.stored j u) in absurd e2
      | inr (b, e) ↦
          let s : Stores (some b) (hash_at n j) (key_at n j) = rw e at (v.stored j u) in
          used b e s.0 s.1 u (elim (Bool-cases (ltb j leaf_keys)) [
            | inl h ↦ ground arith
            | inr h ↦ absurd (u (get_or_end n.hashes j 0 (rw v.hashes_length (ground arith))))
          ])
    ]
  ]

-- what `Recover` reads from a leaf
abbrev pub read : Memory → ℕ → KvLeafNode × Option Bytes
read mem leaf = recover_slots leaf_keys (get_or mem leaf no_leaf) (new_leaf_node leaf) none

pub read-IsRead :
    (mem : Memory) (leaf : ℕ)
    → IsRead leaf_keys (get_or mem leaf no_leaf) (new_leaf_node leaf) none (read mem leaf)
read-IsRead mem leaf =
    recover_slots-IsRead leaf_keys (get_or mem leaf no_leaf) (new_leaf_node leaf) none
      (rw (length-replicate {A = ℕ} leaf_keys 0) (omega arith))
      (rw (length-replicate {A = Bytes} leaf_keys []) (omega arith))

pub read_leaf_lem : (mem : Memory) (leaf : ℕ) → (read mem leaf).0.leaf ≡ leaf
read_leaf_lem mem leaf =
    (recover_slots-shape leaf_keys (get_or mem leaf no_leaf) (new_leaf_node leaf) none).0

-- A leaf without an entry has no highest key.
pub read-IsEmpty : (mem : Memory) (leaf : ℕ) → IsEmpty mem leaf → (read mem leaf).1 ≡ none
read-IsEmpty mem leaf empty = elim (Option-cases (read mem leaf).1) [
  | inl e ↦ e
  | inr (key, e) ↦ elim ((read-IsRead mem leaf).one_of key e) [
    | inl x ↦ cc
    | inr (j, l, h) ↦ let h' : ⊥ = rw (empty j) at h in absurd h'
  ]
]

module _ (ph : Bytes → ℕ) (ph-ne-zero : (k : Bytes) → ph k ≢ 0) (mem : Memory) (n : KvLeafNode)
    (v : IsLeafNode ph ph-ne-zero mem n) where
  hashes_read : (j : ℕ) → hash_at (read mem n.leaf).0 j ≡ hash_at n j
  hashes_read j =
      (read-IsRead mem n.leaf).hashes j
      ∙ rw (get_or-replicate {A = ℕ} leaf_keys j 0) (elim (slot_fact ph ph-ne-zero mem n j v) [
        | unused z e ↦ rw (e, z) (ground arith)
        | used b e p k u l ↦ let t : ltb j leaf_keys ≡ true = ground arith in rw (e, t) p
      ])

  keys_read : (j : ℕ) → hash_at n j ≢ 0 → key_at (read mem n.leaf).0 j ≡ key_at n j
  keys_read j w = (read-IsRead mem n.leaf).keys j ∙ elim (slot_fact ph ph-ne-zero mem n j v) [
    | unused z e ↦ absurd (w z)
    | used b e p k u l ↦
        let t : ltb j leaf_keys ≡ true = ground arith in
        let z : (b.ph == 0) ≡ false = ground arith in rw (e, t, z) k
  ]

  -- The leaf node that is read from the leaf of a leaf node has its slots in use.
  pub read-Agrees : Agrees ph ph-ne-zero (read mem n.leaf).0 n
  read-Agrees =
      let s =
        recover_slots-shape leaf_keys (get_or mem n.leaf no_leaf) (new_leaf_node n.leaf) none in
      record {
        leaf = s.0;
        hashes_length = s.1 ∙ length-replicate {A = ℕ} leaf_keys 0;
        keys_length = s.2 ∙ length-replicate {A = Bytes} leaf_keys [];
        hashes = hashes_read;
        keys = keys_read;
      }

  pub read-Covers : (j : ℕ) → hash_at n j ≢ 0 → Covers (read mem n.leaf).1 (key_at n j)
  read-Covers j w = elim (slot_fact ph ph-ne-zero mem n j v) [
    | unused z e ↦ absurd (w z)
    | used b e p k u l ↦
        (read-IsRead mem n.leaf).covered j (key_at n j) l (rw e ((λ z. w (sym p ∙ z)), k))
  ]

  pub read-one_of :
      (key : Bytes)
      → (read mem n.leaf).1 ≡ some key
      → (j : ℕ) × (hash_at n j ≢ 0) × (key_at n j ≡ key)
  read-one_of key e = elim ((read-IsRead mem n.leaf).one_of key e) [
    | inl x ↦ cc
    | inr (j, l, h) ↦ elim (slot_fact ph ph-ne-zero mem n j v) [
      | unused z e' ↦ let h' : ⊥ = rw e' at h in absurd h'
      | used b e' p k u i ↦ let h' : Holds (some b) key = rw e' at h in (j, u, sym k ∙ h'.1)
    ]
  ]

  pub read-none : (read mem n.leaf).1 ≡ none → IsEmpty mem n.leaf
  read-none e j = elim (slot_fact ph ph-ne-zero mem n j v) [
    | unused z e' ↦ e'
    | used b e' p k u i ↦ let c : ⊥ = rw e at (read-Covers j u) in absurd c
  ]

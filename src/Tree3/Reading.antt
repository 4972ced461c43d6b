-- ===== src/Tree3/Reading.antt =====
-- Proofs about src/engines-experimental/tree3.cc: the leaf node that `Recover` reads from a leaf.
use native.Mathlib.Decide.{ℕ_discrete}
use pmemkv.Base.{
  ℕ, zero, suc, ◌≡◌, ◌≢◌, ◌<◌, ◌∙◌, ◌⊎◌, refl, true, false, [], Option, none, some, Bytes, length,
  get_or, get_or-set, length-set, ltb, ◌==◌, if◌then◌else◌, arith, Bool-cases, inl, inr, ==_iff,
  ◌≤◌,
}
use pmemkv.Tree3.{before, at_most}
use pmemkv.Tree3.Leaves.{KvSlot, KvLeaf, KvLeafNode, hash_at, key_at}
use pmemkv.Tree3.Nodes.Order.{at_most-eq, at_most_widen, before_irrefl}
use pmemkv.Tree3.Recovery.{recover_slots, recover_slot, higher}

abbrev pub slot_hash : KvSlot → ℕ → ℕ
slot_hash none old = old
slot_hash (some b) old = b.ph

abbrev pub slot_key : KvSlot → Bytes → Bytes
slot_key none old = old
slot_key (some b) old = if b.ph == 0 then old else b.key

-- the buffer of a slot in use
abbrev pub Holds : KvSlot → Bytes → Type 0
Holds none key = ⊥
Holds (some b) key = (b.ph ≢ 0) × (b.key ≡ key)

abbrev pub Covers : Option Bytes → Bytes → Type 0
Covers none key = ⊥
Covers (some max_key) key = at_most key max_key ≡ true

-- What the loop over the first `k` slots makes of a node and of the highest key.
pub record IsRead (k : ℕ) (slots : KvLeaf) (n : KvLeafNode) (max_key : Option Bytes)
    (r : KvLeafNode × Option Bytes) : Type 0 where
  pub hashes :
      (j : ℕ)
      → hash_at r.0 j
        ≡ (if ltb j k then slot_hash (get_or slots j none) (hash_at n j) else hash_at n j)
  pub keys :
      (j : ℕ)
      → key_at r.0 j ≡ (if ltb j k then slot_key (get_or slots j none) (key_at n j) else key_at n j)
  pub covered : (j : ℕ) (key : Bytes) → j < k → Holds (get_or slots j none) key → Covers r.1 key
  pub kept : (key : Bytes) → Covers max_key key → Covers r.1 key
  pub one_of :
      (key : Bytes)
      → r.1 ≡ some key
      → (max_key ≡ some key) ⊎ ((j : ℕ) × (j < k) × Holds (get_or slots j none) key)

below_step {ℓ} :
    {A : Type ℓ} (k j : ℕ) (F : A → A) (x y z : A)
    → x ≡ (if ltb j k then F y else y)
    → y ≡ (if j == k then F z else z)
    → x ≡ (if ltb j (suc k) then F z else z)
below_step k j F x y z e f = elim (Bool-cases (j == k)) [
  | inl h ↦
      let a : ltb j k ≡ false = ground arith in
      let b : ltb j (suc k) ≡ true = ground arith in e ∙ rw (a, b) (f ∙ rw h refl)
  | inr h ↦
      let g : y ≡ z = f ∙ rw h refl in
      let b : ltb j (suc k) ≡ ltb j k = ground arith in e ∙ rw (b, g) refl
]

higher-Covers : (m : Option Bytes) (key : Bytes) → Covers (higher m key) key
unfolding higher
higher-Covers none key = at_most-eq key key ∙ rw (before_irrefl key) refl
higher-Covers (some m) key = elim (Bool-cases (before m key)) [
  | inl h ↦ rw h (at_most-eq key key ∙ rw (before_irrefl key) refl)
  | inr h ↦ rw h (at_most-eq key m ∙ rw h refl)
]

higher-kept : (m : Option Bytes) (key q : Bytes) → Covers m q → Covers (higher m key) q
unfolding higher
higher-kept none key q c = absurd c
higher-kept (some m) key q c = elim (Bool-cases (before m key)) [
  | inl h ↦ rw h (at_most_widen q m key c h)
  | inr h ↦ rw h c
]

higher-one_of :
    (m : Option Bytes) (key q : Bytes) → higher m key ≡ some q → (m ≡ some q) ⊎ (key ≡ q)
unfolding higher
higher-one_of none key q e = inr cc
higher-one_of (some m) key q e = elim (Bool-cases (before m key)) [
  | inl h ↦ let e' : some key ≡ some q = rw h at e in inr cc
  | inr h ↦ inl (rw h at e)
]

-- A node after the read of one slot, and then of those below it.
IsRead-step :
    (slot : ℕ) (slots : KvLeaf) (n n1 : KvLeafNode) (m m1 : Option Bytes)
    (r : KvLeafNode × Option Bytes)
    → ((j : ℕ)
        → hash_at n1 j
          ≡ (if j == slot then slot_hash (get_or slots slot none) (hash_at n j) else hash_at n j))
    → ((j : ℕ)
        → key_at n1 j
          ≡ (if j == slot then slot_key (get_or slots slot none) (key_at n j) else key_at n j))
    → ((key : Bytes) → Holds (get_or slots slot none) key → Covers m1 key)
    → ((key : Bytes) → Covers m key → Covers m1 key)
    → ((key : Bytes) → m1 ≡ some key → (m ≡ some key) ⊎ Holds (get_or slots slot none) key)
    → IsRead slot slots n1 m1 r
    → IsRead (suc slot) slots n m r
IsRead-step slot slots n n1 m m1 r h k c p o w = record {
  hashes = λ j. below_step slot j (slot_hash (get_or slots j none)) _ _ _ (w.hashes j) (
      h j ∙ elim (Bool-cases (j == slot)) [
        | inl e ↦ rw (e, (==_iff j slot).0 e) refl
        | inr e ↦ rw e refl
      ]);
  keys = λ j. below_step slot j (slot_key (get_or slots j none)) _ _ _ (w.keys j) (
      k j ∙ elim (Bool-cases (j == slot)) [
        | inl e ↦ rw (e, (==_iff j slot).0 e) refl
        | inr e ↦ rw e refl
      ]);
  covered = λ j key l x. elim (ℕ_discrete j slot) [
    | yes e ↦ w.kept key (c key (rw e at x))
    | no e ↦ w.covered j key (omega arith) x
  ];
  kept = λ key x. w.kept key (p key x);
  one_of = λ key e. elim (w.one_of key e) [
    | inl e1 ↦ elim (o key e1) [ inl e2 ↦ inl e2 | inr x ↦ inr (slot, omega arith, x) ]
    | inr (j, l, x) ↦ inr (j, omega (arith, l), x)
  ];
}

module _ (slot : ℕ) (n : KvLeafNode) (m : Option Bytes) (in_hashes : slot < length n.hashes)
    (in_keys : slot < length n.keys) where
  hash_at-recover_slot :
      (kv : KvSlot) (j : ℕ)
      → hash_at (recover_slot slot kv n m).0 j
        ≡ (if j == slot then slot_hash kv (hash_at n j) else hash_at n j)
  unfolding recover_slot
  hash_at-recover_slot none j = ground arith
  hash_at-recover_slot (some b) j = elim (Bool-cases (b.ph == 0)) [
    | inl e ↦ rw e (get_or-set n.hashes slot j b.ph 0 in_hashes)
    | inr e ↦ rw e (get_or-set n.hashes slot j b.ph 0 in_hashes)
  ]

  key_at-recover_slot :
      (kv : KvSlot) (j : ℕ)
      → key_at (recover_slot slot kv n m).0 j
        ≡ (if j == slot then slot_key kv (key_at n j) else key_at n j)
  unfolding recover_slot
  key_at-recover_slot none j = ground arith
  key_at-recover_slot (some b) j = elim (Bool-cases (b.ph == 0)) [
    | inl e ↦ rw e (ground arith)
    | inr e ↦ rw e (get_or-set n.keys slot j b.key [] in_keys)
  ]

  recover_slot-Covers :
      (kv : KvSlot) (key : Bytes) → Holds kv key → Covers (recover_slot slot kv n m).1 key
  unfolding recover_slot
  recover_slot-Covers none key x = absurd x
  recover_slot-Covers (some b) key (u, k) = elim (Bool-cases (b.ph == 0)) [
    | inl e ↦ absurd (u ((==_iff b.ph 0).0 e))
    | inr e ↦ rw (e, ← k) (higher-Covers m b.key)
  ]

  recover_slot-kept :
      (kv : KvSlot) (key : Bytes) → Covers m key → Covers (recover_slot slot kv n m).1 key
  unfolding recover_slot
  recover_slot-kept none key x = x
  recover_slot-kept (some b) key x = elim (Bool-cases (b.ph == 0)) [
    | inl e ↦ rw e x
    | inr e ↦ rw e (higher-kept m b.key key x)
  ]

  recover_slot-one_of :
      (kv : KvSlot) (key : Bytes)
      → (recover_slot slot kv n m).1 ≡ some key
      → (m ≡ some key) ⊎ Holds kv key
  unfolding recover_slot
  recover_slot-one_of none key x = inl x
  recover_slot-one_of (some b) key x = elim (Bool-cases (b.ph == 0)) [
    | inl e ↦ inl (rw e at x)
    | inr e ↦ elim (higher-one_of m b.key key (rw e at x)) [
      | inl y ↦ inl y
      | inr y ↦ inr ((λ z. cc ((==_iff b.ph 0).1 z)), y)
    ]
  ]

  length-recover_slot :
      (kv : KvSlot)
      → (length (recover_slot slot kv n m).0.hashes ≡ length n.hashes)
        × (length (recover_slot slot kv n m).0.keys ≡ length n.keys)
  unfolding recover_slot
  length-recover_slot none = (refl, refl)
  length-recover_slot (some b) = elim (Bool-cases (b.ph == 0)) [
    | inl e ↦ rw e (length-set n.hashes slot b.ph, refl)
    | inr e ↦ rw e (length-set n.hashes slot b.ph, length-set n.keys slot b.key)
  ]

-- The loop over the slots of a leaf copies the hash of every slot with a buffer and the key of
-- every slot in use into the node, and finds the highest of these keys and of the one before: it is
-- one of them, and all of them are at most it.
pub recover_slots-IsRead :
    (k : ℕ) (slots : KvLeaf) (n : KvLeafNode) (max_key : Option Bytes)
    → k ≤ length n.hashes
    → k ≤ length n.keys
    → IsRead k slots n max_key (recover_slots k slots n max_key)
unfolding recover_slots
recover_slots-IsRead zero slots n m a b = record {
  hashes = λ j. ground arith;
  keys = λ j. ground arith;
  covered = λ j key i x. absurd (omega arith);
  kept = λ key x. x;
  one_of = λ key e. inl e;
}
recover_slots-IsRead (suc slot) slots n m a b =
    let kv = get_or slots slot none in
    let r = recover_slot slot kv n m in
    let l = length-recover_slot slot n m (omega arith) (omega arith) kv in
    IsRead-step slot slots n r.0 m r.1 _
      (hash_at-recover_slot slot n m (omega arith) (omega arith) kv)
      (key_at-recover_slot slot n m (omega arith) (omega arith) kv)
      (recover_slot-Covers slot n m (omega arith) (omega arith) kv)
      (recover_slot-kept slot n m (omega arith) (omega arith) kv)
      (recover_slot-one_of slot n m (omega arith) (omega arith) kv)
      (recover_slots-IsRead slot slots r.0 r.1 (rw l.0 (omega arith)) (rw l.1 (omega arith)))

-- ===== src/Tree3/Scanning.antt =====
-- Proofs about src/engines-experimental/tree3.cc: what the scans over the slots of a leaf find.
use native.Mathlib.Decide.{ℕ_discrete}
use pmemkv.Base.{
  ℕ, zero, suc, ◌≡◌, ◌≢◌, ◌<◌, refl, true, false, Option, some, Bytes, ◌==◌, arith, Bool-cases, inl,
  inr, ==_iff,
}
use pmemkv.Tree3.Filling.{empty_unmatched}
use pmemkv.Tree3.Leaves.{KvLeafNode, hash_at, empty_slot, slot_for_key}
use pmemkv.Tree3.Slots.{matches}

-- What the scan for an empty slot in the first `k` slots returns.
pub empty_slot_found :
    (k : ℕ) (n : KvLeafNode) (j : ℕ)
    → j < k
    → hash_at n j ≡ 0
    → (i : ℕ) × (empty_slot k n ≡ some i) × (i < k) × (hash_at n i ≡ 0)
unfolding empty_slot
empty_slot_found zero n j h e = absurd (omega arith)
empty_slot_found (suc slot) n j h e = elim (Bool-cases (hash_at n slot == 0)) [
  | inl z ↦ (slot, rw z refl, omega arith, (==_iff (hash_at n slot) 0).0 z)
  | inr z ↦
      let lower : j < slot = ground arith in
      let (i, f, l, g) = empty_slot_found slot n j lower e in (i, rw z f, omega (arith, l), g)
]

module _ (ph : Bytes → ℕ) (ph-ne-zero : (k : Bytes) → ph k ≢ 0) where
  -- The ways out of the scan for the slot of a key: at the key, at an empty slot, at neither.
  pub data SlotFor (k : ℕ) (last : Option ℕ) (n : KvLeafNode) (key : Bytes) (r : Option ℕ)
      : Type 0 where
    matched :
        (i : ℕ) → r ≡ some i → i < k → matches ph ph-ne-zero n i key ≡ true → SlotFor k last n key r
    emptied :
        (i : ℕ)
        → r ≡ some i
        → i < k
        → hash_at n i ≡ 0
        → ((j : ℕ) → j < k → matches ph ph-ne-zero n j key ≡ false)
        → SlotFor k last n key r
    passed :
        r ≡ last
        → ((j : ℕ) → j < k → hash_at n j ≢ 0)
        → ((j : ℕ) → j < k → matches ph ph-ne-zero n j key ≡ false)
        → SlotFor k last n key r

  below_suc : (k j : ℕ) (P : ℕ → Type 0) → P k → ((i : ℕ) → i < k → P i) → j < suc k → P j
  below_suc k j P p f h = elim (ℕ_discrete j k) [ yes e ↦ rw e p | no e ↦ f j (omega arith) ]

  pub slot_for_key-SlotFor :
      (k : ℕ) (last : Option ℕ) (n : KvLeafNode) (key : Bytes)
      → SlotFor k last n key (slot_for_key k last n (ph key) key)
  unfolding slot_for_key
  slot_for_key-SlotFor zero last n key =
      passed refl (λ j h. absurd (omega arith)) (λ j h. absurd (omega arith))
  slot_for_key-SlotFor (suc k) last n key = elim (Bool-cases (hash_at n k == 0)) [
    | inl z ↦
        let zero_hash = (==_iff (hash_at n k) 0).0 z in
        let unmatched : matches ph ph-ne-zero n k key ≡ false =
          empty_unmatched ph ph-ne-zero n k key zero_hash in
        rw z (elim (slot_for_key-SlotFor k (some k) n key) [
          | matched i e h m ↦ matched i e (omega (arith, h)) m
          | emptied i e h g f ↦
              emptied i e (omega (arith, h)) g
                (λ j l. below_suc k j (λ i. matches ph ph-ne-zero n i key ≡ false) unmatched f l)
          | passed e g f ↦
              emptied k e (omega arith) zero_hash
                (λ j l. below_suc k j (λ i. matches ph ph-ne-zero n i key ≡ false) unmatched f l)
        ])
    | inr z ↦ elim (Bool-cases (matches ph ph-ne-zero n k key)) [
      | inl m ↦ rw (z, m) (matched k refl (omega arith) m)
      | inr m ↦
          rw (z, m)
            (elim (slot_for_key-SlotFor k last n key) [
              | matched i e h m' ↦ matched i e (omega (arith, h)) m'
              | emptied i e h g f ↦
                  emptied i e (omega (arith, h)) g
                    (λ j l. below_suc k j (λ i. matches ph ph-ne-zero n i key ≡ false) m f l)
              | passed e g f ↦
                  passed e
                    (λ j l.
                      below_suc k j (λ i. hash_at n i ≢ 0) (λ y. cc ((==_iff (hash_at n k) 0).1 y))
                        g l)
                    (λ j l. below_suc k j (λ i. matches ph ph-ne-zero n i key ≡ false) m f l)
            ])
    ]
  ]

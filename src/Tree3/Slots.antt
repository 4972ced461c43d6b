-- ===== src/Tree3/Slots.antt =====
-- Proofs about src/engines-experimental/tree3.cc: the value that a leaf has for a key, and the
-- writes of single slots.
use native.Mathlib.Decide.{ℕ_discrete}
use pmemkv.Base.{
  ℕ, zero, suc, ◌≡◌, ◌≢◌, ◌<◌, ◌∙◌, refl, ap, Bool, true, false, ◌&&◌, List, Option, none, some,
  Bytes, length, get_or, set, get_or-set, length-set, get_or-set_ne, get_or-set_self, ◌==◌,
  if◌then◌else◌, arith, Bool-cases, inl, inr,
}
use pmemkv.Tree3.{same}
use pmemkv.Tree3.Leaves.{
  KvSlot, Memory, KvLeafNode, leaf_keys, no_leaf, slot_at, hash_at, key_at, set_slot, find_slot,
}

-- `leaf` is a leaf of the memory with all its slots.
pub record IsLeaf (mem : Memory) (leaf : ℕ) : Type 0 where
  pub allocated : leaf < length mem
  pub slots_length : length (get_or mem leaf no_leaf) ≡ leaf_keys

module _ (mem : Memory) (leaf slot : ℕ) (kv : KvSlot) where
  pub slot_at-set_slot :
      (j : ℕ)
      → IsLeaf mem leaf
      → slot < leaf_keys
      → slot_at (set_slot mem leaf slot kv) leaf j ≡ (if j == slot then kv else slot_at mem leaf j)
  slot_at-set_slot j w i =
      rw (get_or-set mem leaf leaf (set (get_or mem leaf no_leaf) slot kv) no_leaf w.allocated)
        (ground (arith, get_or-set (get_or mem leaf no_leaf) slot j kv none (rw w.slots_length i)))

  pub slot_at-set_slot_ne :
      (other j : ℕ)
      → leaf ≢ other
      → slot_at (set_slot mem leaf slot kv) other j ≡ slot_at mem other j
  slot_at-set_slot_ne other j n =
      ap (λ (slots : List KvSlot). get_or slots j none)
        (get_or-set_ne mem leaf other (set (get_or mem leaf no_leaf) slot kv) no_leaf n)

  pub set_slot-IsLeaf : (other : ℕ) → IsLeaf mem other → IsLeaf (set_slot mem leaf slot kv) other
  set_slot-IsLeaf other w = record {
    allocated = rw (length-set mem leaf (set (get_or mem leaf no_leaf) slot kv)) w.allocated;
    slots_length = elim (ℕ_discrete leaf other) [
      | yes e ↦ rw e (
          rw
            (get_or-set_self mem other (set (get_or mem other no_leaf) slot kv) no_leaf w.allocated)
            (length-set (get_or mem other no_leaf) slot kv ∙ w.slots_length))
      | no e ↦
          rw (get_or-set_ne mem leaf other (set (get_or mem leaf no_leaf) slot kv) no_leaf e)
            w.slots_length
    ];
  }

-- No slot of the leaf has a buffer.
abbrev pub IsEmpty : Memory → ℕ → Type 0
IsEmpty mem leaf = (j : ℕ) → slot_at mem leaf j ≡ none

-- The hash of a key is never 0.
module _ (ph : Bytes → ℕ) (ph-ne-zero : (k : Bytes) → ph k ≢ 0) where
  abbrev pub matches : KvLeafNode → ℕ → Bytes → Bool
  matches n j q = hash_at n j == ph q && same (key_at n j) q

  abbrev pub value_in : KvSlot → Option Bytes
  value_in none = none
  value_in (some b) = some b.value

  -- the value of a key in the first slots of a leaf
  unfoldable pub leaf_value : ℕ → Memory → KvLeafNode → Bytes → Option Bytes
  leaf_value zero mem n q = none
  leaf_value (suc slot) mem n q =
      if matches n slot q then value_in (slot_at mem n.leaf slot) else leaf_value slot mem n q

  pub find_slot-leaf_value :
      (k : ℕ) (mem : Memory) (n : KvLeafNode) (q : Bytes)
      → leaf_value k mem n q ≡ (elim (find_slot k n (ph q) q) [
        | none ↦ none
        | some slot ↦ value_in (slot_at mem n.leaf slot)
      ])
  unfolding leaf_value find_slot
  find_slot-leaf_value zero mem n q = refl
  find_slot-leaf_value (suc slot) mem n q = elim (Bool-cases (matches n slot q)) [
    | inl h ↦ rw h refl
    | inr h ↦ rw h (find_slot-leaf_value slot mem n q)
  ]

  -- Leaves that agree on the slots where a key may stand have the same value for it.
  pub leaf_value-congr :
      (k : ℕ) (mem mem' : Memory) (n n' : KvLeafNode) (q : Bytes)
      → ((j : ℕ) → matches n' j q ≡ matches n j q)
      → ((j : ℕ) → matches n j q ≡ true → slot_at mem' n'.leaf j ≡ slot_at mem n.leaf j)
      → leaf_value k mem' n' q ≡ leaf_value k mem n q
  unfolding leaf_value
  leaf_value-congr zero mem mem' n n' q f g = refl
  leaf_value-congr (suc slot) mem mem' n n' q f g = elim (Bool-cases (matches n slot q)) [
    | inl h ↦ rw (f slot ∙ h, h, g slot h) refl
    | inr h ↦ rw (f slot ∙ h, h) (leaf_value-congr slot mem mem' n n' q f g)
  ]

  -- A key that matches at one slot only has the value there.
  pub leaf_value_at :
      (k : ℕ) (mem : Memory) (n : KvLeafNode) (q : Bytes) (i : ℕ)
      → i < k
      → matches n i q ≡ true
      → ((j : ℕ) → j ≢ i → matches n j q ≡ false)
      → leaf_value k mem n q ≡ value_in (slot_at mem n.leaf i)
  unfolding leaf_value
  leaf_value_at zero mem n q i h m only = absurd (omega arith)
  leaf_value_at (suc slot) mem n q i h m only = elim (ℕ_discrete slot i) [
    | yes e ↦ rw (e, m) refl
    | no e ↦ rw (only slot e) (leaf_value_at slot mem n q i (omega arith) m only)
  ]

  pub leaf_value-none :
      (k : ℕ) (mem : Memory) (n : KvLeafNode) (q : Bytes)
      → ((j : ℕ) → matches n j q ≡ false)
      → leaf_value k mem n q ≡ none
  unfolding leaf_value
  leaf_value-none zero mem n q f = refl
  leaf_value-none (suc slot) mem n q f = rw (f slot) (leaf_value-none slot mem n q f)

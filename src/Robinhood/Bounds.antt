-- ===== src/Robinhood/Bounds.antt =====
-- Proofs about src/engines-experimental/robinhood.cc: positions stay inside the table and off
-- slot 0, and what a successful lookup has found.
use native.Mathlib.Nat.{mod-lt, mod-eq_of_lt, mod_self}
use pmemkv.Base.{
  ℕ, zero, suc, ◌+◌, ◌%◌, ◌≡◌, ◌≢◌, ◌≤◌, ◌<◌, ◌^◌, true, some, arith, ◌==◌, if◌then◌else◌,
}
use pmemkv.Robinhood.{Hashmap, hash, increment_pos, entry_at, mix_key}
use pmemkv.Robinhood.Lookup.{lookup_loop, index_lookup, hm_rp_get}

pub hash_bounds :
    (capacity key : ℕ) → 2 ≤ capacity → (1 ≤ hash capacity key) × (hash capacity key < capacity)
unfolding hash
hash_bounds capacity key h = ground (arith, mod-lt (mix_key key) {m = capacity} (omega arith))

pub increment_pos_bounds :
    (capacity pos : ℕ)
    → 2 ≤ capacity
    → (1 ≤ increment_pos capacity pos) × (increment_pos capacity pos < capacity)
unfolding increment_pos
increment_pos_bounds capacity pos h = ground arith

-- Inside the table the next position is the next slot, or slot 1 behind the last one.
pub increment_pos-eq :
    (capacity pos : ℕ)
    → 2 ≤ capacity
    → capacity ≤ 2 ^ 63
    → pos < capacity
    → increment_pos capacity pos ≡ (if pos + 1 == capacity then 1 else pos + 1)
unfolding increment_pos
increment_pos-eq capacity pos h w p =
    let small : (pos + 1) % 2 ^ 64 ≡ pos + 1 = omega arith in
    rw small (ground (arith, mod-eq_of_lt {n = pos + 1} {m = capacity}, mod_self capacity))

lookup_loop_sound :
    (n : ℕ) (m : Hashmap) (key h pos dist : ℕ) {p : ℕ}
    → 2 ≤ m.capacity
    → 1 ≤ pos
    → pos < m.capacity
    → lookup_loop n m key h pos dist ≡ some p
    → p ≢ 0
    → (1 ≤ p)
      × (p < m.capacity)
      × ((entry_at m.entries p).key ≡ key)
      × ((entry_at m.entries p).hash ≡ h)
unfolding lookup_loop
lookup_loop_sound zero m key h pos dist c l u e n = cc
lookup_loop_sound (suc k) m key h pos dist {p} c l u e n =
    let (l', u') = increment_pos_bounds m.capacity pos c in
    let later =
      λ (again : lookup_loop k m key h (increment_pos m.capacity pos) (dist + 1) ≡ some p).
        lookup_loop_sound k m key h (increment_pos m.capacity pos) (dist + 1) c l' u' again n in
    ground (arith, later)

hm_rp_get-found :
    (m : Hashmap) (key p : ℕ)
    → index_lookup m key ≡ some p
    → p ≢ 0
    → hm_rp_get m key ≡ some ((entry_at m.entries p).value, true)
unfolding hm_rp_get
hm_rp_get-found m key p e n = ground arith

-- A lookup that returns a position, and not 0, has found the key: the position is that of a slot
-- in use, which holds the key, its hash, and the value that `hm_rp_get` returns.
pub index_lookup_sound :
    (m : Hashmap) (key p : ℕ)
    → 2 ≤ m.capacity
    → index_lookup m key ≡ some p
    → p ≢ 0
    → (1 ≤ p)
      × (p < m.capacity)
      × ((entry_at m.entries p).key ≡ key)
      × ((entry_at m.entries p).hash ≡ hash m.capacity key)
      × (hm_rp_get m key ≡ some ((entry_at m.entries p).value, true))
unfolding index_lookup
index_lookup_sound m key p c e n =
    let (l, u) = hash_bounds m.capacity key c in
    let s =
      lookup_loop_sound (suc m.capacity) m key (hash m.capacity key) (hash m.capacity key) 0 c l u e
        n in
    (s.0, s.1, s.2, s.3, hm_rp_get-found m key p e n)

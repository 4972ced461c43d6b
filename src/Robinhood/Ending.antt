-- ===== src/Robinhood/Ending.antt =====
-- Proofs about src/engines-experimental/robinhood.cc: the `do` loop of the lookup ends.
use native.Mathlib.Nat.{mod-lt}
use pmemkv.Base.{
  ℕ, zero, suc, ◌+◌, ◌-◌, ◌%◌, ◌^◌, ◌≡◌, ◌≢◌, ◌≤◌, ◌<◌, ◌⊎◌, inl, inr, refl, true, some, arith, not,
  ◌&&◌, leb, ◌==◌, Bool-cases,
}
use native.Mathlib.Decide.{ℕ_discrete}
use pmemkv.Robinhood.{Hashmap, hash, increment_pos, probe_distance, entry_at, word_mod}
use pmemkv.Robinhood.Bounds.{index_lookup_sound}
use pmemkv.Robinhood.Lookup.{lookup_loop, index_lookup, hm_rp_get}

-- No slot holds an entry, or the tombstone of one, that has been past every other slot.
unfoldable pub HasNoFullRound : Hashmap → Type 0
unfolding probe_distance increment_pos
HasNoFullRound m =
    (i : ℕ) → probe_distance m.capacity (entry_at m.entries i).hash (increment_pos m.capacity i) ≢ 0

probe_distance-lt :
    (capacity hash_key i : ℕ) → 1 ≤ capacity → probe_distance capacity hash_key i < capacity
unfolding probe_distance
probe_distance-lt capacity hash_key i h =
    mod-lt ((i + capacity + word_mod - hash_key) % word_mod) {m = capacity} h

-- The distance test lets a round follow only if there is fuel for it.
next_dist :
    (capacity d dist : ℕ)
    → capacity ≤ 2 ^ 63
    → d < capacity
    → d ≢ 0
    → leb dist ((d + word_mod - 1) % word_mod) ≡ true
    → dist + 1 ≤ capacity
next_dist capacity d dist c u n h = ground arith

lookup_loop_total :
    (n : ℕ) (m : Hashmap) (key h pos dist : ℕ)
    → 2 ≤ m.capacity
    → m.capacity ≤ 2 ^ 63
    → HasNoFullRound m
    → n + dist ≡ suc m.capacity
    → dist ≤ m.capacity
    → (p : ℕ) × (lookup_loop n m key h pos dist ≡ some p)
unfolding lookup_loop HasNoFullRound
lookup_loop_total zero m key h pos dist c w f s u = absurd (omega arith)
lookup_loop_total (suc n) m key h pos dist c w f s u =
    let e = entry_at m.entries pos in
    let pos' = increment_pos m.capacity pos in
    let d = probe_distance m.capacity e.hash pos' in
    elim (Bool-cases (e.hash == h && e.key == key)) [
      | inl hit ↦ (pos, rw hit refl)
      | inr miss ↦
          elim (Bool-cases (not (e.hash == 0) && leb dist ((d + word_mod - 1) % word_mod))) [
            | inl again ↦
                let test : leb dist ((d + word_mod - 1) % word_mod) ≡ true = ground arith in
                let u' =
                  next_dist m.capacity d dist w
                    (probe_distance-lt m.capacity e.hash pos' (omega arith)) (f pos) test in
                let (p, q) = lookup_loop_total n m key h pos' (dist + 1) c w f (omega arith) u' in
                (p, rw (miss, again) q)
            | inr over ↦ (0, rw (miss, over) refl)
          ]
    ]

-- In a table of at most 2^63 slots in which no entry has gone all the way round, the lookup of any
-- key ends, within one round per slot and one more. It returns 0, or the position of a slot in the
-- table, and not slot 0, that holds the key with the value that `hm_rp_get` then returns.
pub index_lookup_total :
    (m : Hashmap) (key : ℕ)
    → 2 ≤ m.capacity
    → m.capacity ≤ 2 ^ 63
    → HasNoFullRound m
    → (p : ℕ) × (index_lookup m key ≡ some p)
      × ((p ≡ 0)
          ⊎ ((1 ≤ p)
              × (p < m.capacity)
              × ((entry_at m.entries p).key ≡ key)
              × (hm_rp_get m key ≡ some ((entry_at m.entries p).value, true))))
unfolding index_lookup
index_lookup_total m key c w f =
    let h = hash m.capacity key in
    let (p, q) = lookup_loop_total (suc m.capacity) m key h h 0 c w f (omega arith) (omega arith) in
    elim (ℕ_discrete p 0) [
      | yes z ↦ (p, q, inl z)
      | no n ↦ let s = index_lookup_sound m key p c q n in (p, q, inr (s.0, s.1, s.2, s.4))
    ]

-- ===== src/Robinhood/Tests.antt =====
-- A table with entries and a tombstone, and the theorems at it.
use native.Mathlib.Decide.{ℕ_discrete}
use pmemkv.Base.{
  ltb, length, if◌then◌else◌, ◌≢◌, ◌⊎◌, replicate, set, get_or-set_ne, ℕ, ◌+◌, ◌/◌, ◌≡◌, ◌≤◌, ◌<◌,
  ◌^◌, refl, Bool, true, false, [], ◌∷◌, some, arith, zero, suc, List,
}
use pmemkv.Robinhood.{
  Hashmap, probe_distance, increment_pos, Entry, zero_entry, entry_is_empty, hash, entry_at,
}
use pmemkv.Robinhood.Bounds.{index_lookup_sound, increment_pos_bounds}
use pmemkv.Robinhood.Ending.{HasNoFullRound, index_lookup_total}
use pmemkv.Robinhood.Count.{IsValid, live, live_count}
use pmemkv.Robinhood.Insert.{insert_helper}
use pmemkv.Robinhood.Lookup.{index_lookup, hm_rp_get, hm_rp_foreach, hm_rp_count}
use pmemkv.Robinhood.Traversal.{call_each, contents, hm_rp_foreach-call_each}
use pmemkv.Robinhood.Publish.{insert_helper-IsValid}
use pmemkv.Robinhood.Resize.{hashmap_create, hm_rp_rebuild, hm_rp_insert, hm_rp_remove}
use pmemkv.Robinhood.Rebuild.{IsRebuilt, hm_rp_rebuild-IsRebuilt}
use pmemkv.Robinhood.Remove.{IsRemoved, hm_rp_remove-IsRemoved}
use pmemkv.Robinhood.Growth.{hm_rp_insert-IsValid, hm_rp_insert-failed}
use pmemkv.Robinhood.Tally.{tally, matches, key_is, IsDistinct}

abbrev fresh : Hashmap
fresh = hashmap_create (λ n. n)

fresh-IsValid : IsValid fresh
unfolding hashmap_create live_count live entry_is_empty
fresh-IsValid = record { sized = refl; roomy = omega arith; counted = refl }

abbrev used : Hashmap
used = (insert_helper fresh 5 50 false).0

home : hash 16 5 ≡ 5
unfolding hash
home = refl

used_lookup : index_lookup used 5 ≡ some 5
unfolding index_lookup insert_helper hashmap_create
used_lookup = refl

-- slots from `i` on, each taken by a key at its home
in_order : ℕ → ℕ → List Entry
in_order zero i = []
in_order (suc n) i = record { key = 1000 + i; value = 0; hash = i } ∷ in_order n (i + 1)

-- a table with no free slot
abbrev full : Hashmap
full = record {
  count = 255;
  capacity = 256;
  resize_threshold = 307;
  load_factor = λ n. n + n / 5;
  entries = zero_entry ∷ in_order 255 1;
}

full_rejects : (insert_helper full 6 60 false).1 ≡ false
unfolding insert_helper in_order
full_rejects = refl

used_roomy : 2 ≤ used.capacity
unfolding insert_helper hashmap_create
used_roomy = omega arith

insert_helper-IsValid_example :
    let m = fresh in
    let key : ℕ = 5 in
    let value : ℕ = 50 in let rebuild = false in IsValid (insert_helper m key value rebuild).0
insert_helper-IsValid_example = insert_helper-IsValid fresh 5 50 false fresh-IsValid

index_lookup_sound_example :
    let m = used in
    let key : ℕ = 5 in
    let p : ℕ = 5 in
    (1 ≤ p)
    × (p < m.capacity)
    × ((entry_at m.entries p).key ≡ key)
    × ((entry_at m.entries p).hash ≡ hash m.capacity key)
    × (hm_rp_get m key ≡ some ((entry_at m.entries p).value, true))
index_lookup_sound_example = index_lookup_sound used 5 5 used_roomy used_lookup (omega arith)

used-IsValid : IsValid used
used-IsValid = insert_helper-IsValid fresh 5 50 false fresh-IsValid

used-IsDistinct : IsDistinct used.entries
unfolding IsDistinct tally matches live entry_is_empty insert_helper hashmap_create
used-IsDistinct q = ground arith

hm_rp_rebuild-IsRebuilt_example : IsRebuilt used 32 (hm_rp_rebuild used 32)
hm_rp_rebuild-IsRebuilt_example =
    hm_rp_rebuild-IsRebuilt used 32 used-IsValid used-IsDistinct (omega arith)

used_small : used.capacity ≤ 2 ^ 63
unfolding insert_helper hashmap_create
used_small = omega arith

used_factor : (c : ℕ) → used.load_factor c ≤ c
unfolding insert_helper hashmap_create
used_factor c = omega arith

hm_rp_remove-IsRemoved_example :
    (r : Hashmap × Bool) × (hm_rp_remove used 5 ≡ some r)
    × IsRemoved used 5 r.0
    × (tally (key_is 5) r.0.entries ≡ 0)
hm_rp_remove-IsRemoved_example =
    hm_rp_remove-IsRemoved used 5 5 used-IsValid used-IsDistinct used_small used_factor used_lookup
      (omega arith)

hm_rp_insert-IsValid_example : IsValid (hm_rp_insert used 21 7).0
hm_rp_insert-IsValid_example = hm_rp_insert-IsValid used 21 7 used-IsValid used-IsDistinct

full-IsValid : IsValid full
unfolding live_count live entry_is_empty in_order
full-IsValid = record { sized = refl; roomy = omega arith; counted = refl }

later_keys : (n i q : ℕ) → q < 1000 + i → tally (key_is q) (in_order n i) ≡ 0
unfolding tally matches in_order
later_keys zero i q h = refl
later_keys (suc n) i q h = ground (arith, later_keys n (i + 1) q (omega arith))

in_order-IsDistinct : (n i : ℕ) → IsDistinct (in_order n i)
unfolding IsDistinct tally matches live entry_is_empty in_order
in_order-IsDistinct zero i q = omega arith
in_order-IsDistinct (suc n) i q = elim (ℕ_discrete (1000 + i) q) [
  | yes same ↦ ground (arith, later_keys n (i + 1) q (omega arith))
  | no other ↦ ground (arith, in_order-IsDistinct n (i + 1) q)
]

full-IsDistinct : IsDistinct full.entries
unfolding IsDistinct tally matches live entry_is_empty
full-IsDistinct q = ground (arith, in_order-IsDistinct 255 1 q)

full_fails : (hm_rp_insert full 6 60).1 ≡ false
unfolding hm_rp_insert
full_fails = full_rejects

hm_rp_insert-failed_example :
    ((test : ℕ → ℕ → Bool)
      → tally test (hm_rp_insert full 6 60).0.entries ≡ tally test full.entries)
    × ((hm_rp_insert full 6 60).0.count ≡ full.count)
hm_rp_insert-failed_example = hm_rp_insert-failed full 6 60 full-IsValid full-IsDistinct full_fails

get_or-replicate : (n i : ℕ) → entry_at (replicate n zero_entry) i ≡ zero_entry
get_or-replicate zero i = refl
get_or-replicate (suc n) zero = refl
get_or-replicate (suc n) (suc i) = get_or-replicate n i

abbrev five : Entry
five = record { key = 5; value = 50; hash = 5 }

used_entries : used.entries ≡ set (replicate 16 zero_entry) 5 five
unfolding insert_helper hashmap_create
used_entries = refl

used_capacity : used.capacity ≡ 16
unfolding insert_helper hashmap_create
used_capacity = refl

free_slot : (next : ℕ) → 1 ≤ next → next < 16 → probe_distance 16 0 next ≢ 0
unfolding probe_distance
free_slot next l u = ground arith

taken_slot : probe_distance 16 5 (increment_pos 16 5) ≡ 1
unfolding probe_distance increment_pos
taken_slot = refl

used-HasNoFullRound : HasNoFullRound used
unfolding HasNoFullRound
used-HasNoFullRound i =
    let (low, high) = increment_pos_bounds 16 i (omega arith) in
    rw (used_entries, used_capacity)
      (elim (ℕ_discrete 5 i) [
        | yes q ↦ rw (← q, taken_slot) (omega arith)
        | no q ↦
            rw
              (get_or-set_ne (replicate 16 zero_entry) 5 i five zero_entry q, get_or-replicate 16 i)
              (free_slot (increment_pos 16 i) low high)
      ])

index_lookup_total_example :
    let m = used in
    (p : ℕ) × (index_lookup m 5 ≡ some p)
    × ((p ≡ 0)
        ⊎ ((1 ≤ p)
            × (p < m.capacity)
            × ((entry_at m.entries p).key ≡ 5)
            × (hm_rp_get m 5 ≡ some ((entry_at m.entries p).value, true))))
index_lookup_total_example = index_lookup_total used 5 used_roomy used_small used-HasNoFullRound

-- adds the values up, and stops at a sum over 100
add_up : ℕ → ℕ → ℕ → ℕ × ℕ
add_up key value sum = (if ltb 100 (sum + value) then 1 else 0, sum + value)

hm_rp_foreach-call_each_example :
    (hm_rp_foreach used add_up 7 ≡ call_each add_up (contents used.entries) 7)
    × (hm_rp_count used ≡ length (contents used.entries))
hm_rp_foreach-call_each_example = hm_rp_foreach-call_each used add_up 7 used-IsValid

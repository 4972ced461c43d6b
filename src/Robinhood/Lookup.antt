-- ===== src/Robinhood/Lookup.antt =====
-- src/engines-experimental/robinhood.cc: `index_lookup` and the functions that only read the table.
use pmemkv.Base.{
  ℕ, zero, suc, ◌+◌, ◌-◌, ◌%◌, Bool, true, false, not, ◌&&◌, List, [], ◌∷◌, Option, none, some, leb,
  ◌==◌, if◌then◌else◌,
}
use pmemkv.Robinhood.{
  Entry, Hashmap, word_mod, entry_is_empty, increment_pos, probe_distance, hash, entry_at,
}

-- The `do` loop; `none` means that the fuel ran out.
unfoldable pub lookup_loop : ℕ → Hashmap → ℕ → ℕ → ℕ → ℕ → Option ℕ
unfolding increment_pos probe_distance
lookup_loop zero m key h pos dist = none
lookup_loop (suc n) m key h pos dist =
    let e = entry_at m.entries pos in
    let pos' = increment_pos m.capacity pos in
    let limit = (probe_distance m.capacity e.hash pos' + word_mod - 1) % word_mod in
    let again = lookup_loop n m key h pos' (dist + 1) in
    if e.hash == h && e.key == key
    then some pos
    else if not (e.hash == 0) && leb dist limit
    then again
    else some 0

-- The position of the key, or 0; `none` if the probe has not ended when it has been to as many
-- slots as the table has.
unfoldable pub index_lookup : Hashmap → ℕ → Option ℕ
unfolding lookup_loop hash
index_lookup m key = let h = hash m.capacity key in lookup_loop (suc m.capacity) m key h h 0

unfoldable pub hm_rp_get : Hashmap → ℕ → Option (ℕ × Bool)
hm_rp_get m key = elim (index_lookup m key) [
  | none ↦ none
  | some pos ↦ if pos == 0 then some (0, false) else some ((entry_at m.entries pos).value, true)
]

unfoldable pub hm_rp_lookup : Hashmap → ℕ → Option Bool
hm_rp_lookup m key = elim (index_lookup m key) [ none ↦ none | some pos ↦ some (not (pos == 0)) ]

unfoldable pub hm_rp_count : Hashmap → ℕ
hm_rp_count m = m.count

-- The callback's number other than 0 ends the loop and is returned.
unfoldable pub foreach_entry : {A : Type 0} → List Entry → (ℕ → ℕ → A → ℕ × A) → A → ℕ × A
unfolding entry_is_empty
foreach_entry [] cb arg = (0, arg)
foreach_entry (e ∷ es) cb arg =
    let (ret, arg') = cb e.key e.value arg in
    let rest = foreach_entry es cb arg' in
    let skipped = foreach_entry es cb arg in
    if entry_is_empty e.hash then skipped else if ret == 0 then rest else (ret, arg')

unfoldable pub hm_rp_foreach : {A : Type 0} → Hashmap → (ℕ → ℕ → A → ℕ × A) → A → ℕ × A
unfolding foreach_entry
hm_rp_foreach m cb arg = foreach_entry m.entries cb arg

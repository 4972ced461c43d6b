-- ===== src/Robinhood/Resize.antt =====
-- src/engines-experimental/robinhood.cc: the rebuild, and the operations that may need one. That
-- memory runs out in libpmemobj is not modelled.
use pmemkv.Base.{
  ℕ, ◌+◌, ◌-◌, ◌*◌, ◌/◌, ◌%◌, Bool, true, false, ◌&&◌, List, [], ◌∷◌, Option, none, some, replicate,
  set, leb, ltb, ◌==◌, if◌then◌else◌,
}
use pmemkv.Robinhood.{
  Entry, Hashmap, zero_entry, init_entries_num, tombstone_mask, word_mod, entry_is_empty,
  entry_is_deleted, entry_at,
}
use pmemkv.Robinhood.Insert.{insert_helper}
use pmemkv.Robinhood.Lookup.{index_lookup}

-- `hashmap_create`
unfoldable pub hashmap_create : (ℕ → ℕ) → Hashmap
hashmap_create load_factor = record {
  count = 0;
  capacity = init_entries_num;
  resize_threshold = load_factor init_entries_num;
  load_factor = load_factor;
  entries = replicate init_entries_num zero_entry;
}

-- the loop over the source's entries; `none` is the return of -1
unfoldable pub entries_cache : Hashmap → List Entry → Option Hashmap
entries_cache dest [] = some dest
entries_cache dest (e ∷ es) =
    let (dest', done) = insert_helper dest e.key e.value true in
    elim (entry_is_empty e.hash) [
      | true ↦ entries_cache dest es
      | false ↦ elim done [ true ↦ entries_cache dest' es | false ↦ none ]
    ]

-- The table with its new fields published, or as it was with `false`.
unfoldable pub hm_rp_rebuild : Hashmap → ℕ → Hashmap × Bool
unfolding entries_cache
hm_rp_rebuild m capacity_new =
    let threshold_new = m.load_factor capacity_new in
    let fresh : Hashmap = record {
      count = 0;
      capacity = capacity_new;
      resize_threshold = threshold_new;
      load_factor = m.load_factor;
      entries = replicate capacity_new zero_entry;
    } in
    elim (entries_cache fresh m.entries) [
      | none ↦ (m, false)
      | some rebuilt ↦ (
        record m {
          capacity = capacity_new;
          resize_threshold = threshold_new;
          entries = rebuilt.entries;
        },
        true,
      )
    ]

unfoldable pub hm_rp_insert : Hashmap → ℕ → ℕ → Hashmap × Bool
hm_rp_insert m key value =
    let (grown, done) = hm_rp_rebuild m (m.capacity * 2) in
    if leb m.resize_threshold (m.count + 1)
    then (if done then insert_helper grown key value false else (m, false))
    else insert_helper m key value false

-- the four values that are published for a removed entry
unfoldable pub bury : Hashmap → ℕ → Hashmap
unfolding entry_is_deleted
bury m pos =
    let e = entry_at m.entries pos in
    let dead = if entry_is_deleted e.hash then e.hash else e.hash + tombstone_mask in
    record m {
      entries = set m.entries pos (record { key = 0; value = 0; hash = dead });
      count = (m.count + word_mod - 1) % word_mod;
    }

-- `true` is the return of 0, `false` that of 1; `none` where the lookup does not end.
unfoldable pub hm_rp_remove : Hashmap → ℕ → Option (Hashmap × Bool)
hm_rp_remove m key = elim (index_lookup m key) [
  | none ↦ none
  | some pos ↦
      let m' = bury m pos in
      let reduced_threshold = m'.load_factor (m'.capacity / 2) in
      if pos == 0
      then some (m, false)
      else if leb init_entries_num reduced_threshold && ltb m'.count reduced_threshold
      then some (hm_rp_rebuild m' (m'.capacity / 2))
      else some (m', true)
]

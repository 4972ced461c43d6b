-- ===== src/Radix/Overlay.antt =====
-- Proofs about src/engines-experimental/radix.cc: the entries that the merged iterator passes.
use pmemkv.Base.{◌≡◌, refl, true, false, [], ◌∷◌, some, Bytes, if◌then◌else◌, Bool-cases, inl, inr}
use pmemkv.OrderedMap.{Map, Entry}
use pmemkv.Radix.{
  CacheValue, value_ptr, tombstone_volatile, tombstone_persistent, Cache, CurrentIt, dram, pmem,
  MergedIterator, settle_at, settle, advance, dereferenceable, entry, is_tombstone,
}
use pmemkv.Tree3.{before, same}

abbrev pub emit : Bytes → CacheValue → Map → Map
emit k (value_ptr v) m = (k, v) ∷ m
emit k tombstone_volatile m = m
emit k tombstone_persistent m = m

abbrev pub overlay_at : Bytes → CacheValue → (Map → Map) → Map → Map
overlay_at k v behind [] = emit k v (behind [])
overlay_at k v behind ((j, w) ∷ p) =
    let passed = overlay_at k v behind p in
    if same k j
    then passed
    else if before j k
    then (j, w) ∷ passed
    else emit k v (behind ((j, w) ∷ p))

-- the entries of the cache over those of the container
unfoldable pub overlay : Cache → Map → Map
overlay [] p = p
overlay ((k, v) ∷ d) p = overlay_at k v (overlay d) p

-- What an iterator shows: nothing, or an entry and what it shows behind that.
pub data Shows (i : MergedIterator) : Map → Type 0 where
  ended : dereferenceable i ≡ false → Shows i []
  shown :
      (e : Entry) (c : CurrentIt) (d : Cache) (p : Map)
      → dereferenceable i ≡ true
      → entry i ≡ some e
      → advance i ≡ settle c d p
      → Shows i (e ∷ overlay d p)

at_dram :
    (k v : Bytes) (d : Cache) (p : Map)
    → Shows
        (record { dram_it = (k, value_ptr v) ∷ d; pmem_it = p; curr_it = dram })
        ((k, v) ∷ overlay d p)
unfolding dereferenceable entry advance
at_dram k v d [] = shown (k, v) dram d [] refl refl refl
at_dram k v d (e ∷ p) = shown (k, v) dram d (e ∷ p) refl refl refl

at_pmem :
    (d : Cache) (e : Entry) (p : Map)
    → Shows (record { dram_it = d; pmem_it = e ∷ p; curr_it = pmem }) (e ∷ overlay d p)
unfolding dereferenceable entry advance
at_pmem d e p = shown e pmem d p refl refl refl

settle_at-Shows :
    (k : Bytes) (v : CacheValue) (d : Cache) (skip : Map → MergedIterator)
    → ((p : Map) → Shows (skip p) (overlay d p))
    → (p : Map) → Shows (settle_at k v d skip p) (overlay_at k v (overlay d) p)
unfolding settle_at overlay
settle_at-Shows k (value_ptr v) d skip f [] = at_dram k v d []
settle_at-Shows k tombstone_volatile d skip f [] = f []
settle_at-Shows k tombstone_persistent d skip f [] = f []
settle_at-Shows k v d skip f ((j, w) ∷ p) = elim (Bool-cases (same k j)) [
  | inl h ↦ rw h (settle_at-Shows k v d skip f p)
  | inr h ↦ elim (Bool-cases (before j k)) [
    | inl b ↦ rw (h, b) (at_pmem ((k, v) ∷ d) (j, w) p)
    | inr b ↦ rw (h, b) (behind v)
  ]
]
  where
    behind :
        (x : CacheValue)
        → Shows
            (if is_tombstone x
              then skip ((j, w) ∷ p)
              else record { dram_it = (k, x) ∷ d; pmem_it = (j, w) ∷ p; curr_it = dram })
            (emit k x (overlay d ((j, w) ∷ p)))
    behind (value_ptr b) = at_dram k b d ((j, w) ∷ p)
    behind tombstone_volatile = f ((j, w) ∷ p)
    behind tombstone_persistent = f ((j, w) ∷ p)

pub settle-Shows : (c : CurrentIt) (d : Cache) (p : Map) → Shows (settle c d p) (overlay d p)
unfolding settle overlay dereferenceable
settle-Shows c [] [] = ended refl
settle-Shows c [] (e ∷ p) = at_pmem [] e p
settle-Shows c ((k, v) ∷ d) p = settle_at-Shows k v d (settle c d) (settle-Shows c d) p

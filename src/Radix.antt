-- ===== src/Radix.antt =====
-- src/engines-experimental/radix.h and radix.cc: the queries of the heterogeneous engine, which merge
-- the cache in DRAM with the radix tree on persistent memory. A query is one critical section, and
-- nothing else runs in it. An iterator is what remains of its container.
pub mod Overlay
pub mod Lookup
pub mod Ranges
pub mod Loop
pub mod Queries
mod Tests
use pmemkv.Base.{
  ℕ, zero, suc, ◌+◌, Bool, true, false, ◌&&◌, List, [], ◌∷◌, Option, none, some, Bytes, length,
  ◌==◌, if◌then◌else◌,
}
use pmemkv.Engine.{KvCallback}
use pmemkv.OrderedMap.{Map, Entry}
use pmemkv.Robinhood.Shards.{check_outside_tx}
use pmemkv.Status.{Status, ok, stopped_by_cb, Outcome}
use pmemkv.Tree3.{before, at_most, same}

-- What an entry of the cache points to: a value, or one of the two tombstones of a removed key.
pub data CacheValue : Type 0 where
  value_ptr : Bytes → CacheValue
  tombstone_volatile tombstone_persistent : CacheValue

-- `ordered_cache::map`, in the order of its keys
abbrev pub Cache : Type 0
Cache = List (Bytes × CacheValue)

-- `cache`, and the entries of `container` in the order of its keys
pub record HeterogeneousRadix : Type 0 where
  pub cache : Cache
  pub container : Map

-- `enum class current_it`
pub data CurrentIt : Type 0 where
  dram pmem : CurrentIt

pub record MergedIterator : Type 0 where
  pub dram_it : Cache
  pub pmem_it : Map
  pub curr_it : CurrentIt

abbrev pub is_tombstone : CacheValue → Bool
is_tombstone (value_ptr v) = false
is_tombstone tombstone_volatile = true
is_tombstone tombstone_persistent = true

-- The loop of `set_current_it` while the cache's iterator stays at one entry; `skip` is the loop
-- behind that entry.
unfoldable pub settle_at :
    Bytes → CacheValue → Cache → (Map → MergedIterator) → Map → MergedIterator
settle_at k v d skip [] =
    if is_tombstone v
    then skip []
    else record { dram_it = (k, v) ∷ d; pmem_it = []; curr_it = dram }
settle_at k v d skip ((j, w) ∷ p) =
    let behind = settle_at k v d skip p in
    let skipped = skip ((j, w) ∷ p) in
    if same k j
    then behind
    else if before j k
    then record { dram_it = (k, v) ∷ d; pmem_it = (j, w) ∷ p; curr_it = pmem }
    else if is_tombstone v
    then skipped
    else record { dram_it = (k, v) ∷ d; pmem_it = (j, w) ∷ p; curr_it = dram }

-- `set_current_it`
unfoldable pub settle : CurrentIt → Cache → Map → MergedIterator
unfolding settle_at
settle c [] [] = record { dram_it = []; pmem_it = []; curr_it = c }
settle c [] (e ∷ p) = record { dram_it = []; pmem_it = e ∷ p; curr_it = pmem }
settle c ((k, v) ∷ d) p = settle_at k v d (settle c d) p

abbrev rest_of {ℓ} : {A : Type ℓ} → List A → List A
rest_of [] = []
rest_of (x ∷ xs) = xs

-- `operator++`
unfoldable pub advance : MergedIterator → MergedIterator
unfolding settle
advance i = elim i.curr_it [
  | dram ↦ settle dram (rest_of i.dram_it) i.pmem_it
  | pmem ↦ settle pmem i.dram_it (rest_of i.pmem_it)
]

abbrev ends {ℓ} : {A : Type ℓ} → List A → Bool
ends [] = true
ends (x ∷ xs) = false

unfoldable pub dereferenceable : MergedIterator → Bool
dereferenceable i = if ends i.pmem_it then (if ends i.dram_it then false else true) else true

abbrev pub dram_entry : Cache → Option Entry
dram_entry [] = none
dram_entry ((k, value_ptr v) ∷ d) = some (k, v)
dram_entry ((k, tombstone_volatile) ∷ d) = none
dram_entry ((k, tombstone_persistent) ∷ d) = none

abbrev pub pmem_entry : Map → Option Entry
pmem_entry [] = none
pmem_entry (e ∷ p) = some e

-- `key` and `value`; `none` where the source asserts.
unfoldable pub entry : MergedIterator → Option Entry
entry i = elim i.curr_it [ dram ↦ dram_entry i.dram_it | pmem ↦ pmem_entry i.pmem_it ]

-- The test of a query on the key of the iterator, behind `dereferenceable`.
unfoldable pub continues : (Bytes → Bool) → MergedIterator → Bool
unfolding dereferenceable entry
continues test i = dereferenceable i && (elim (entry i) [ none ↦ false | some e ↦ test e.0 ])

-- `iterate_generic` with `iterate_callback`; `rounds` bounds the loop.
unfoldable pub iterate_generic :
    {A : Type 0} → ℕ → (Bytes → Bool) → KvCallback A → MergedIterator → A → A × Status
unfolding continues entry advance
iterate_generic zero test callback i arg = (arg, ok)
iterate_generic (suc rounds) test callback i arg = elim (continues test i) [
  | false ↦ (arg, ok)
  | true ↦ elim (entry i) [
    | none ↦ (arg, ok)
    | some e ↦
        let (ret, arg') = callback e.0 e.1 arg in
        let rest = iterate_generic rounds test callback (advance i) arg' in
        if ret == 0 then rest else (arg', stopped_by_cb)
  ]
]

-- the entries of a container from the first one that is not less than the key, or greater
abbrev pub from_lower : {V : Type 0} → Bytes → List (Bytes × V) → List (Bytes × V)
from_lower key [] = []
from_lower key (e ∷ m) = if before e.0 key then from_lower key m else e ∷ m

abbrev pub from_upper : {V : Type 0} → Bytes → List (Bytes × V) → List (Bytes × V)
from_upper key [] = []
from_upper key (e ∷ m) = if at_most e.0 key then from_upper key m else e ∷ m

-- the callback `count_elements`
abbrev pub count_elements : KvCallback ℕ
count_elements k v cnt = (0, cnt + 1)

module _ (s : HeterogeneousRadix) where
  -- at most one round for each entry, and the one that ends
  abbrev pub rounds : ℕ
  rounds = suc (length s.cache + length s.container)

  -- `curr_it` is not read before it is set.
  unfoldable pub merged_begin : MergedIterator
  unfolding settle
  merged_begin = settle pmem s.cache s.container

  unfoldable pub merged_lower_bound : Bytes → MergedIterator
  unfolding settle
  merged_lower_bound key = settle pmem (from_lower key s.cache) (from_lower key s.container)

  unfoldable pub merged_upper_bound : Bytes → MergedIterator
  unfolding settle
  merged_upper_bound key = settle pmem (from_upper key s.cache) (from_upper key s.container)

module _ (s : HeterogeneousRadix) (in_tx : Bool) where
  unfoldable pub get_all : (A : Type 0) → KvCallback A → A → Outcome (A × Status)
  unfolding check_outside_tx iterate_generic merged_begin
  get_all A callback arg =
      check_outside_tx in_tx (iterate_generic (rounds s) (λ k. true) callback (merged_begin s) arg)

  unfoldable pub get_equal_below : (A : Type 0) → Bytes → KvCallback A → A → Outcome (A × Status)
  unfolding check_outside_tx iterate_generic merged_begin
  get_equal_below A key callback arg =
      check_outside_tx in_tx
        (iterate_generic (rounds s) (λ k. at_most k key) callback (merged_begin s) arg)

  unfoldable pub get_below : (A : Type 0) → Bytes → KvCallback A → A → Outcome (A × Status)
  unfolding check_outside_tx iterate_generic merged_begin
  get_below A key callback arg =
      check_outside_tx in_tx
        (iterate_generic (rounds s) (λ k. before k key) callback (merged_begin s) arg)

  unfoldable pub get_above : (A : Type 0) → Bytes → KvCallback A → A → Outcome (A × Status)
  unfolding check_outside_tx iterate_generic merged_upper_bound
  get_above A key callback arg =
      check_outside_tx in_tx
        (iterate_generic (rounds s) (λ k. true) callback (merged_upper_bound s key) arg)

  unfoldable pub get_equal_above : (A : Type 0) → Bytes → KvCallback A → A → Outcome (A × Status)
  unfolding check_outside_tx iterate_generic merged_lower_bound
  get_equal_above A key callback arg =
      check_outside_tx in_tx
        (iterate_generic (rounds s) (λ k. true) callback (merged_lower_bound s key) arg)

  unfoldable pub get_between :
      (A : Type 0) → Bytes → Bytes → KvCallback A → A → Outcome (A × Status)
  unfolding check_outside_tx iterate_generic merged_upper_bound
  get_between A key1 key2 callback arg =
      let found =
        iterate_generic (rounds s) (λ k. before k key2) callback (merged_upper_bound s key1) arg in
      check_outside_tx in_tx (if before key1 key2 then found else (arg, ok))

  unfoldable pub count_all : Outcome (ℕ × Status)
  unfolding get_all
  count_all = get_all ℕ count_elements 0

  unfoldable pub count_equal_below : Bytes → Outcome (ℕ × Status)
  unfolding get_equal_below
  count_equal_below key = get_equal_below ℕ key count_elements 0

  unfoldable pub count_below : Bytes → Outcome (ℕ × Status)
  unfolding get_below
  count_below key = get_below ℕ key count_elements 0

  unfoldable pub count_above : Bytes → Outcome (ℕ × Status)
  unfolding get_above
  count_above key = get_above ℕ key count_elements 0

  unfoldable pub count_equal_above : Bytes → Outcome (ℕ × Status)
  unfolding get_equal_above
  count_equal_above key = get_equal_above ℕ key count_elements 0

  unfoldable pub count_between : Bytes → Bytes → Outcome (ℕ × Status)
  unfolding get_between
  count_between key1 key2 = get_between ℕ key1 key2 count_elements 0

-- ===== src/Csmap.antt =====
-- src/engines-experimental/csmap.h and csmap.cc: the sorted engine on persistent memory, over the
-- concurrent map of libpmemobj-cpp as a parameter. A method holds the lock of the map, and of an
-- entry where it touches one, so it is one step. `in_tx` says whether the calling thread is inside
-- a libpmemobj transaction.
pub mod Laws
pub mod View
pub mod Agreement
pub mod Iterator
pub mod Locks
pub mod Recovery
pub mod Reopening
mod Tests
use pmemkv.Base.{
  ℕ, suc, ◌-◌, Bool, true, false, List, [], ◌∷◌, Option, none, some, Bytes, length, get_elem?, drop,
  ltb, ◌==◌, if◌then◌else◌,
}
use pmemkv.Comparator.Persistent.{PmemobjCompare, pmemobj_less}
use pmemkv.Engine.{Method, KvCallback, ValueCallback}
use pmemkv.OrderedMap.{Map}
use pmemkv.Robinhood.Shards.{check_outside_tx}
use pmemkv.Status.{Status, ok, not_found, stopped_by_cb, Outcome, returns, throws}

-- What csmap.cc calls of `pmem::obj::experimental::concurrent_map`, each with `key_comp()` first.
-- `entries` are what an iterator passes from `begin()`, an iterator is a position in them, and
-- `end()` is behind the last. `assign_val` is `it->second.val.assign`.
pub record ConcurrentMap (C : Type 0) : Type 0 where
  pub entries : C → Map
  pub size : C → ℕ
  pub lower_bound : (Bytes → Bytes → Bool) → Bytes → C → ℕ
  pub upper_bound : (Bytes → Bytes → Bool) → Bytes → C → ℕ
  pub find : (Bytes → Bytes → Bool) → Bytes → C → ℕ
  pub find_lower : (Bytes → Bytes → Bool) → Bytes → C → ℕ
  pub find_lower_eq : (Bytes → Bytes → Bool) → Bytes → C → ℕ
  pub find_higher : (Bytes → Bytes → Bool) → Bytes → C → ℕ
  pub find_higher_eq : (Bytes → Bytes → Bool) → Bytes → C → ℕ
  pub contains : (Bytes → Bytes → Bool) → Bytes → C → Bool
  pub try_emplace : (Bytes → Bytes → Bool) → Bytes → Bytes → C → C × ℕ × Bool
  pub assign_val : ℕ → Bytes → C → C
  pub unsafe_erase : (Bytes → Bytes → Bool) → Bytes → C → C × ℕ

-- `pmem_type` has the map, and the map has its comparator.
pub record Csmap (C : Type 0) : Type 0 where
  pub compare : PmemobjCompare
  pub container : C

-- The loop of `iterate` from the entry at position `i` to `last`.
unfoldable pub iterate_rest : {A : Type 0} → ℕ → ℕ → Map → KvCallback A → A → A × Status
iterate_rest i last [] callback arg = (arg, ok)
iterate_rest i last ((k, v) ∷ m) callback arg =
    let (ret, arg') = callback k v arg in
    let rest = iterate_rest (suc i) last m callback arg' in
    if i == last then (arg, ok) else if ret == 0 then rest else (arg', stopped_by_cb)

-- a method that begins with `check_outside_tx`
unfoldable pub outside_tx : {S O : Type 0} → Bool → Method S O → Method S O
unfolding check_outside_tx
outside_tx in_tx method s o = elim (check_outside_tx in_tx tt) [
  | returns _ ↦ method s o
  | throws e ↦ (s, o, throws e)
]

module _ {C : Type 0} (m : ConcurrentMap C) (in_tx : Bool) where
  -- `key_comp()`
  abbrev pub key_comp : Csmap C → Bytes → Bytes → Bool
  key_comp s = pmemobj_less s.compare

  abbrev pub end_of : Csmap C → ℕ
  end_of s = length (m.entries s.container)

  -- a method that leaves the object as it is and returns a status
  abbrev query : {O : Type 0} → (Csmap C → O → O × Status) → Method (Csmap C) O
  query f = outside_tx in_tx (λ s o. (s, (f s o).0, returns (f s o).1))

  unfoldable pub iterate : {A : Type 0} → Csmap C → ℕ → ℕ → KvCallback A → A → A × Status
  unfolding iterate_rest
  iterate s first last callback arg =
      iterate_rest first last (drop first (m.entries s.container)) callback arg

  unfoldable pub count_all : Method (Csmap C) ℕ
  unfolding outside_tx
  count_all = query λ s cnt. (m.size s.container, ok)

  unfoldable pub count_above : Bytes → Method (Csmap C) ℕ
  unfolding outside_tx
  count_above key = query λ s cnt.
      let first = m.upper_bound (key_comp s) key s.container in
      let last = end_of s in (last - first, ok)

  unfoldable pub count_equal_above : Bytes → Method (Csmap C) ℕ
  unfolding outside_tx
  count_equal_above key = query λ s cnt.
      let first = m.lower_bound (key_comp s) key s.container in
      let last = end_of s in (last - first, ok)

  unfoldable pub count_equal_below : Bytes → Method (Csmap C) ℕ
  unfolding outside_tx
  count_equal_below key =
      query λ s cnt. let last = m.upper_bound (key_comp s) key s.container in (last - 0, ok)

  unfoldable pub count_below : Bytes → Method (Csmap C) ℕ
  unfolding outside_tx
  count_below key =
      query λ s cnt. let last = m.lower_bound (key_comp s) key s.container in (last - 0, ok)

  unfoldable pub count_between : Bytes → Bytes → Method (Csmap C) ℕ
  unfolding outside_tx
  count_between key1 key2 = query λ s cnt.
      let first = m.upper_bound (key_comp s) key1 s.container in
      let last = m.lower_bound (key_comp s) key2 s.container in
      (if key_comp s key1 key2 then last - first else 0, ok)

  unfoldable pub get_all : (A : Type 0) → KvCallback A → Method (Csmap C) A
  unfolding outside_tx iterate
  get_all A callback = query λ s arg. iterate s 0 (end_of s) callback arg

  unfoldable pub get_above : (A : Type 0) → Bytes → KvCallback A → Method (Csmap C) A
  unfolding outside_tx iterate
  get_above A key callback = query λ s arg.
      let first = m.upper_bound (key_comp s) key s.container in
      iterate s first (end_of s) callback arg

  unfoldable pub get_equal_above : (A : Type 0) → Bytes → KvCallback A → Method (Csmap C) A
  unfolding outside_tx iterate
  get_equal_above A key callback = query λ s arg.
      let first = m.lower_bound (key_comp s) key s.container in
      iterate s first (end_of s) callback arg

  unfoldable pub get_equal_below : (A : Type 0) → Bytes → KvCallback A → Method (Csmap C) A
  unfolding outside_tx iterate
  get_equal_below A key callback = query λ s arg.
      let last = m.upper_bound (key_comp s) key s.container in iterate s 0 last callback arg

  unfoldable pub get_below : (A : Type 0) → Bytes → KvCallback A → Method (Csmap C) A
  unfolding outside_tx iterate
  get_below A key callback = query λ s arg.
      let last = m.lower_bound (key_comp s) key s.container in iterate s 0 last callback arg

  unfoldable pub get_between : (A : Type 0) → Bytes → Bytes → KvCallback A → Method (Csmap C) A
  unfolding outside_tx iterate
  get_between A key1 key2 callback = query λ s arg.
      let first = m.upper_bound (key_comp s) key1 s.container in
      let last = m.lower_bound (key_comp s) key2 s.container in
      if key_comp s key1 key2 then iterate s first last callback arg else (arg, ok)

  unfoldable pub exists : Bytes → Method (Csmap C) Unit
  unfolding outside_tx
  exists key = query λ s o. (o, if m.contains (key_comp s) key s.container then ok else not_found)

  unfoldable pub get : (A : Type 0) → Bytes → ValueCallback A → Method (Csmap C) A
  unfolding outside_tx
  get A key callback = query λ s arg.
      let it = m.find (key_comp s) key s.container in
      elim (get_elem? (m.entries s.container) it) [
        | none ↦ (arg, not_found)
        | some e ↦ (callback e.1 arg, ok)
      ]

  unfoldable pub put : Bytes → Bytes → Method (Csmap C) Unit
  unfolding outside_tx
  put key value = outside_tx in_tx λ s o.
      let (c, it, inserted) = m.try_emplace (key_comp s) key value s.container in
      (record s { container = if inserted then c else m.assign_val it value c }, o, returns ok)

  unfoldable pub remove : Bytes → Method (Csmap C) Unit
  unfolding outside_tx
  remove key = outside_tx in_tx λ s o.
      let (c, erased) = m.unsafe_erase (key_comp s) key s.container in
      (record s { container = c }, o, returns (if ltb 0 erased then ok else not_found))

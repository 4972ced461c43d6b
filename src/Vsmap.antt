-- ===== src/Vsmap.antt =====
-- src/engines/vsmap.h and vsmap.cc: the sorted volatile engine over `std::map`, with the loop of
-- src/iterator.h. That memory runs out in the memkind allocator is not modelled.
pub mod Iterator
pub mod Queries
pub mod Updates
pub mod Object
pub mod Create
mod Tests
use Prim.Native.String.{String}
use pmemkv.Base.{
  ℕ, suc, ◌-◌, Bool, List, [], ◌∷◌, Option, none, some, Bytes, length, get_elem?, drop, ◌==◌,
  if◌then◌else◌,
}
use pmemkv.Comparator.{Comparator, volatile_compare, extract_comparator}
use pmemkv.Config.{Config, get_path, get_size}
use pmemkv.Engine.{Method, KvCallback, ValueCallback}
use pmemkv.Engine.Factory.{check_config_null}
use pmemkv.OrderedMap.{Map, lower_bound, upper_bound, find, emplace, erase, assign}
use pmemkv.Status.{Status, ok, not_found, stopped_by_cb, Outcome, returns, ◌>>=◌}

-- The object: the order that the constructor takes from the config, and the container.
pub record Vsmap : Type 0 where
  pub compare : Comparator
  pub container : Map

-- `key_comp()`
abbrev pub key_comp : Vsmap → Bytes → Bytes → Bool
key_comp s = volatile_compare s.compare

-- The constructor: it reads the path and the size for the allocator, then the comparator.
unfoldable pub vsmap : (ℕ → Comparator) → Config → Outcome Vsmap
unfolding get_path get_size extract_comparator
vsmap deref cfg = do
  path ← get_path cfg
  size ← get_size cfg
  c ← extract_comparator deref cfg
  returns (record { compare = c; container = [] })

-- `vsmap_factory::create`
unfoldable pub create : (ℕ → Comparator) → Option Config → Outcome Vsmap
unfolding vsmap check_config_null
create deref cfg = do c ← check_config_null "vsmap" cfg; vsmap deref c

-- `internal::distance`
abbrev pub distance : ℕ → ℕ → ℕ
distance first last = last - first

-- The loop from the entry at position `i` to `last`.
unfoldable pub iterate_from : {A : Type 0} → ℕ → ℕ → Map → KvCallback A → A → A × Status
iterate_from i last [] callback arg = (arg, ok)
iterate_from i last ((k, v) ∷ m) callback arg =
    let (ret, arg') = callback k v arg in
    let rest = iterate_from (suc i) last m callback arg' in
    if i == last then (arg, ok) else if ret == 0 then rest else (arg', stopped_by_cb)

unfoldable pub iterate_through_pairs : {A : Type 0} → ℕ → ℕ → Map → KvCallback A → A → A × Status
unfolding iterate_from
iterate_through_pairs first last m callback arg =
    iterate_from first last (drop first m) callback arg

-- a method that leaves the object as it is and returns a status
abbrev pub query : {O : Type 0} → (Vsmap → O → O × Status) → Method Vsmap O
query f s o = (s, (f s o).0, returns (f s o).1)

unfoldable pub count_all : Method Vsmap ℕ
count_all = query λ s cnt. (length s.container, ok)

unfoldable pub count_above : Bytes → Method Vsmap ℕ
count_above key = query λ s cnt.
    let it = upper_bound (key_comp s) key s.container in
    let last = length s.container in (distance it last, ok)

unfoldable pub count_equal_above : Bytes → Method Vsmap ℕ
count_equal_above key = query λ s cnt.
    let it = lower_bound (key_comp s) key s.container in
    let last = length s.container in (distance it last, ok)

unfoldable pub count_equal_below : Bytes → Method Vsmap ℕ
count_equal_below key =
    query λ s cnt. let last = upper_bound (key_comp s) key s.container in (distance 0 last, ok)

unfoldable pub count_below : Bytes → Method Vsmap ℕ
count_below key =
    query λ s cnt. let last = lower_bound (key_comp s) key s.container in (distance 0 last, ok)

unfoldable pub count_between : Bytes → Bytes → Method Vsmap ℕ
count_between key1 key2 = query λ s cnt.
    let it = upper_bound (key_comp s) key1 s.container in
    let last = lower_bound (key_comp s) key2 s.container in
    (if key_comp s key1 key2 then distance it last else 0, ok)

unfoldable pub get_all : (A : Type 0) → KvCallback A → Method Vsmap A
unfolding iterate_through_pairs
get_all A callback =
    query λ s arg. iterate_through_pairs 0 (length s.container) s.container callback arg

unfoldable pub get_above : (A : Type 0) → Bytes → KvCallback A → Method Vsmap A
unfolding iterate_through_pairs
get_above A key callback = query λ s arg.
    let it = upper_bound (key_comp s) key s.container in
    iterate_through_pairs it (length s.container) s.container callback arg

unfoldable pub get_equal_above : (A : Type 0) → Bytes → KvCallback A → Method Vsmap A
unfolding iterate_through_pairs
get_equal_above A key callback = query λ s arg.
    let it = lower_bound (key_comp s) key s.container in
    iterate_through_pairs it (length s.container) s.container callback arg

unfoldable pub get_equal_below : (A : Type 0) → Bytes → KvCallback A → Method Vsmap A
unfolding iterate_through_pairs
get_equal_below A key callback = query λ s arg.
    let last = upper_bound (key_comp s) key s.container in
    iterate_through_pairs 0 last s.container callback arg

unfoldable pub get_below : (A : Type 0) → Bytes → KvCallback A → Method Vsmap A
unfolding iterate_through_pairs
get_below A key callback = query λ s arg.
    let last = lower_bound (key_comp s) key s.container in
    iterate_through_pairs 0 last s.container callback arg

unfoldable pub get_between : (A : Type 0) → Bytes → Bytes → KvCallback A → Method Vsmap A
unfolding iterate_through_pairs
get_between A key1 key2 callback = query λ s arg.
    let it = upper_bound (key_comp s) key1 s.container in
    let last = lower_bound (key_comp s) key2 s.container in
    if key_comp s key1 key2
    then iterate_through_pairs it last s.container callback arg
    else (arg, ok)

-- `find(...) != end()`
unfoldable pub exists : Bytes → Method Vsmap Unit
exists key = query λ s o.
    let r = find (key_comp s) key s.container in
    (o, if r == length s.container then not_found else ok)

unfoldable pub get : (A : Type 0) → Bytes → ValueCallback A → Method Vsmap A
get A key callback = query λ s arg.
    let pos = find (key_comp s) key s.container in
    elim (get_elem? s.container pos) [ none ↦ (arg, not_found) | some e ↦ (callback e.1 arg, ok) ]

unfoldable pub put : Bytes → Bytes → Method Vsmap Unit
put key value s o =
    let (m, it, inserted) = emplace (key_comp s) key value s.container in
    (record s { container = if inserted then m else assign it value m }, o, returns ok)

unfoldable pub remove : Bytes → Method Vsmap Unit
remove key s o =
    let (m, erased) = erase (key_comp s) key s.container in
    (record s { container = m }, o, returns (if erased then ok else not_found))

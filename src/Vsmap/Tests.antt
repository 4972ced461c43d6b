-- ===== src/Vsmap/Tests.antt =====
-- Runs of the sorted engine, and its theorems at concrete engines.
use mathlib.Core.List.{List}
use pmemkv.Base.{
  ℕ, ◌≡◌, ◌+◌, ◌-◌, ◌^◌, refl, true, not, [], ◌∷◌, ◌++◌, none, some, Bytes, length, take, drop,
  get_elem?, arith, if◌then◌else◌, ◌&&◌, is_some, min, ltb, ◌↔◌,
}
use pmemkv.Comparator.{binary_comparator, binary_compare, volatile_compare}
use pmemkv.Comparator.Binary.{binary_comparator-order}
use pmemkv.Config
use pmemkv.Config.{Config, string_v, uint64, get_object, get_path, get_size}
use pmemkv.Engine.{KvCallback, ValueCallback}
use pmemkv.OrderedMap.{Entry, upper_bound, emplace, assign, keep}
use pmemkv.Status.{ok, not_found, returns}
use pmemkv.Vsmap
use pmemkv.Vsmap.Create.{IsBelow, create-IsValid}
use pmemkv.Vsmap.Iterator.{
  VsmapIterator, seek_lower, seek_lower_eq, seek_higher, seek_higher_eq, seek_to_first,
  seek_to_last, current, commit, write_range, read_range, next, prev, is_next,
}
use pmemkv.Vsmap.Iterator.Range.{commit-write_range, read_range_inside}
use pmemkv.Vsmap.Iterator.Seek.{LandsOn, seek-LandsOn, last_of_list, first_of_list}
use pmemkv.Vsmap.Iterator.Walk.{prev-next}
use pmemkv.Vsmap.Queries.{IsValid, visiting, get_ranges-visit, counting, count_ranges-length}
use pmemkv.Vsmap.Updates.{value_of, same_key, get-value_of, value_of-put, value_of-remove}
use pmemkv.Vsmap.{
  Vsmap, key_comp, get_all, get_above, get_equal_above, get_equal_below, get_below, get_between,
  count_above, count_equal_above, count_equal_below, count_below, count_between, exists, get,
}

abbrev two : Vsmap
two = record {
  compare = binary_comparator;
  container = (1 ∷ [], 10 ∷ 20 ∷ 30 ∷ []) ∷ (3 ∷ [], 7 ∷ []) ∷ [];
}

two-IsValid : IsValid two
unfolding volatile_compare binary_compare
two-IsValid = record { order = binary_comparator-order; sorted = ((refl, tt), (tt, tt)) }

-- collects the keys, and stops behind the key 9
abbrev collect : KvCallback (List Bytes)
collect k v arg = (0, arg ++ k ∷ [])

put_twice :
    (Vsmap.put (2 ∷ []) (5 ∷ []) two tt).0.container
    ≡ (1 ∷ [], 10 ∷ 20 ∷ 30 ∷ []) ∷ (2 ∷ [], 5 ∷ []) ∷ (3 ∷ [], 7 ∷ []) ∷ []
unfolding Vsmap.put emplace volatile_compare binary_compare
put_twice = refl

above_one : Vsmap.get_above (List Bytes) (1 ∷ []) collect two [] ≡ (two, (3 ∷ []) ∷ [], returns ok)
unfolding Vsmap.get_above upper_bound volatile_compare binary_compare
above_one = refl

abbrev start : VsmapIterator
start = record { writable = true; it = 0; log = [] }

abbrev written : VsmapIterator
written = record start { log = (99 ∷ [], 1) ∷ [] }

abbrev first_entry : Entry
first_entry = (1 ∷ [], 10 ∷ 20 ∷ 30 ∷ [])

start-current : current two start ≡ some first_entry
unfolding current
start-current = refl

committed : (commit two written).0.container ≡ (1 ∷ [], 10 ∷ 99 ∷ 30 ∷ []) ∷ (3 ∷ [], 7 ∷ []) ∷ []
unfolding commit assign
committed = refl

abbrev paths : Config
paths = ("path", string_v "/dev/shm") ∷ ("size", uint64 1024) ∷ []

abbrev made : Vsmap
made = record { compare = binary_comparator; container = [] }

config_get : Config.get "comparator" paths ≡ none
unfolding Config.get
config_get = refl

config_path : get_path paths ≡ returns "/dev/shm"
unfolding get_path
config_path = refl

config_size : get_size paths ≡ returns 1024
unfolding get_size
config_size = refl

get_ranges-visit_example :
    let A : Type 0 = List Bytes in
    let s = two in
    let k1 : Bytes = 1 ∷ [] in
    let k2 : Bytes = 3 ∷ [] in
    let callback : KvCallback (List Bytes) = collect in
    let arg : List Bytes = [] in
    (get_all A callback s arg ≡ visiting s.container callback s arg)
    × (get_above A k1 callback s arg
        ≡ visiting (keep (λ j. key_comp s k1 j) s.container) callback s arg)
    × (get_equal_above A k1 callback s arg
        ≡ visiting (keep (λ j. not (key_comp s j k1)) s.container) callback s arg)
    × (get_equal_below A k1 callback s arg
        ≡ visiting (keep (λ j. not (key_comp s k1 j)) s.container) callback s arg)
    × (get_below A k1 callback s arg
        ≡ visiting (keep (λ j. key_comp s j k1) s.container) callback s arg)
    × (get_between A k1 k2 callback s arg
        ≡ visiting (keep (λ j. key_comp s k1 j && key_comp s j k2) s.container) callback s arg)
get_ranges-visit_example = get_ranges-visit two (1 ∷ []) (3 ∷ []) collect [] two-IsValid

count_ranges-length_example :
    let s = two in
    let k1 : Bytes = 1 ∷ [] in
    let k2 : Bytes = 4 ∷ [] in
    let cnt : ℕ = 9 in
    (Vsmap.count_all s cnt ≡ counting s.container s)
    × (count_above k1 s cnt ≡ counting (keep (λ j. key_comp s k1 j) s.container) s)
    × (count_equal_above k1 s cnt ≡ counting (keep (λ j. not (key_comp s j k1)) s.container) s)
    × (count_equal_below k1 s cnt ≡ counting (keep (λ j. not (key_comp s k1 j)) s.container) s)
    × (count_below k1 s cnt ≡ counting (keep (λ j. key_comp s j k1) s.container) s)
    × (count_between k1 k2 s cnt
        ≡ counting (keep (λ j. key_comp s k1 j && key_comp s j k2) s.container) s)
count_ranges-length_example = count_ranges-length two (1 ∷ []) (4 ∷ []) 9 two-IsValid

get-value_of_example :
    let A : Type 0 = Bytes in
    let s = two in
    let key : Bytes = 3 ∷ [] in
    let callback : ValueCallback Bytes = (λ v a. v) in
    let arg : Bytes = [] in
    (get A key callback s arg ≡ (elim (value_of s key) [
      | none ↦ (s, arg, returns not_found)
      | some v ↦ (s, callback v arg, returns ok)
    ]))
    × (exists key s tt ≡ (s, tt, returns (if is_some (value_of s key) then ok else not_found)))
get-value_of_example = get-value_of two (3 ∷ []) (λ v a. v) [] two-IsValid

value_of-put_example :
    let s = two in
    let key : Bytes = 2 ∷ [] in
    let value : Bytes = 5 ∷ [] in
    let q : Bytes = 3 ∷ [] in
    ((Vsmap.put key value s tt).2 ≡ returns ok)
    × IsValid (Vsmap.put key value s tt).0
    × (value_of (Vsmap.put key value s tt).0 q
        ≡ (if same_key s q key then some value else value_of s q))
value_of-put_example = value_of-put two (2 ∷ []) (5 ∷ []) (3 ∷ []) two-IsValid

value_of-remove_example :
    let s = two in
    let key : Bytes = 3 ∷ [] in
    let q : Bytes = 1 ∷ [] in
    ((Vsmap.remove key s tt).2 ≡ returns (if is_some (value_of s key) then ok else not_found))
    × IsValid (Vsmap.remove key s tt).0
    × (value_of (Vsmap.remove key s tt).0 q ≡ (if same_key s q key then none else value_of s q))
value_of-remove_example = value_of-remove two (3 ∷ []) (1 ∷ []) two-IsValid

seek-LandsOn_example :
    let s = two in
    let i = start in
    let k : Bytes = 2 ∷ [] in
    LandsOn s (seek_lower k s i) (last_of_list (keep (λ j. key_comp s j k) s.container))
    × LandsOn s (seek_lower_eq k s i) (last_of_list (keep (λ j. not (key_comp s k j)) s.container))
    × LandsOn s (seek_higher k s i) (first_of_list (keep (λ j. key_comp s k j) s.container))
    × LandsOn s
        (seek_higher_eq k s i)
        (first_of_list (keep (λ j. not (key_comp s j k)) s.container))
    × LandsOn s (seek_to_first s i) (first_of_list s.container)
    × LandsOn s (seek_to_last s i) (last_of_list s.container)
seek-LandsOn_example = seek-LandsOn two start (2 ∷ []) two-IsValid

prev-next_example :
    let s = two in
    let i = start in
    ((next s i).1 ≡ (is_next s i).1)
    × ((next s i).1 ≡ (if ltb (i.it + 1) (length s.container) then ok else not_found))
    × ((next s i).0.it ≡ min (i.it + 1) (length s.container))
    × ((prev s i).1 ≡ (if ltb 0 i.it then ok else not_found))
    × ((prev s i).0.it ≡ i.it - 1)
    × ((prev s (next s i).0).1 ≡ (if ltb 0 (length s.container) then ok else not_found))
    × ((prev s (next s i).0).0.it ≡ min i.it (length s.container - 1))
prev-next_example = prev-next two start (omega arith)

read_range_inside_example :
    let s = two in
    let i = start in
    let pos : ℕ = 1 in
    let n : ℕ = 2 ^ 64 - 1 in
    let e = first_entry in read_range pos n s i ≡ some (pos, min (pos + n) (length e.1))
read_range_inside_example =
    read_range_inside two start 1 (2 ^ 64 - 1) first_entry start-current (omega arith) (omega arith)
      (omega arith)

commit-write_range_example :
    let s = two in
    let i = start in
    let pos : ℕ = 1 in
    let q : ℕ = 1 in
    let bs : Bytes = 99 ∷ [] in
    let e = first_entry in
    let written = record i { log = (bs, pos) ∷ [] } in
    (write_range pos (length bs) s i
      ≡ some (record i { log = (take (length bs) (drop pos e.1), pos) ∷ [] }, ok))
    × (current (commit s written).0 i
        ≡ some (e.0, take pos e.1 ++ bs ++ drop (pos + length bs) e.1))
    × (get_elem? (commit s written).0.container q ≡ get_elem? s.container q)
    × ((commit s written).0.compare ≡ s.compare)
    × ((commit s written).1.log ≡ [])
commit-write_range_example =
    commit-write_range two start 1 1 (99 ∷ []) first_entry refl refl start-current (omega arith)
      (omega arith) (omega arith)

create-IsValid_example :
    (s : Vsmap) × (Vsmap.create (λ p. binary_comparator) (some paths) ≡ returns s)
    × IsValid s
    × (s.container ≡ [])
    × ((a b : Bytes) → (key_comp s a b ≡ true) ↔ IsBelow a b)
create-IsValid_example =
    create-IsValid (λ p. binary_comparator) paths "/dev/shm" 1024 config_path config_size config_get

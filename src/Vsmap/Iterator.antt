-- ===== src/Vsmap/Iterator.antt =====
-- src/engines/vsmap.cc: `vsmap_iterator<true>` and `vsmap_iterator<false>`, with what they inherit
-- from src/iterator.cc. An iterator of `std::map` is a position; the container is that of the
-- engine, on which each method is called.
pub mod Seek
pub mod Walk
pub mod Range
use pmemkv.Base.{
  ℕ, zero, suc, ◌+◌, ◌-◌, ◌%◌, ◌^◌, Bool, true, false, ◌||◌, List, [], ◌∷◌, ◌++◌, Option, none,
  some, Bytes, length, get_elem?, take, drop, ltb, ◌==◌, if◌then◌else◌,
}
use pmemkv.OrderedMap.{Map, Entry, lower_bound, upper_bound, find, assign}
use pmemkv.Status.{Status, ok, not_found, not_supported}
use pmemkv.Vsmap.{Vsmap, key_comp}

-- `writable` tells `vsmap_iterator<false>` from `vsmap_iterator<true>`; only it uses the log.
pub record VsmapIterator : Type 0 where
  pub writable : Bool
  pub it : ℕ
  pub log : List (Bytes × ℕ)

-- `new_iterator` and `new_const_iterator`; the position is indeterminate.
unfoldable pub new_iterator : Bool → ℕ → VsmapIterator
new_iterator writable indeterminate = record { writable = writable; it = indeterminate; log = [] }

-- The base class's `abort` does nothing.
unfoldable pub abort : VsmapIterator → VsmapIterator
abort i = if i.writable then record i { log = [] } else i

unfoldable pub init_seek : VsmapIterator → VsmapIterator
unfolding abort
init_seek i = abort i

abbrev end_of : Vsmap → ℕ
end_of s = length s.container

-- the iterator at a position, after `init_seek`
abbrev at : VsmapIterator → ℕ → VsmapIterator
at i p = record (init_seek i) { it = p }

unfoldable pub seek : Bytes → Vsmap → VsmapIterator → VsmapIterator × Status
unfolding init_seek
seek key s i =
    let p = find (key_comp s) key s.container in (at i p, if p == end_of s then not_found else ok)

-- The branch of `seek_lower` and `seek_lower_eq` on the position that the bound gives.
abbrev step_back : Vsmap → VsmapIterator → ℕ → VsmapIterator × Status
step_back s i p = if p == 0 then (at i (end_of s), not_found) else (at i (p - 1), ok)

unfoldable pub seek_lower : Bytes → Vsmap → VsmapIterator → VsmapIterator × Status
unfolding init_seek
seek_lower key s i = step_back s i (lower_bound (key_comp s) key s.container)

unfoldable pub seek_lower_eq : Bytes → Vsmap → VsmapIterator → VsmapIterator × Status
unfolding init_seek
seek_lower_eq key s i = step_back s i (upper_bound (key_comp s) key s.container)

unfoldable pub seek_higher : Bytes → Vsmap → VsmapIterator → VsmapIterator × Status
unfolding init_seek
seek_higher key s i =
    let p = upper_bound (key_comp s) key s.container in
    (at i p, if p == end_of s then not_found else ok)

unfoldable pub seek_higher_eq : Bytes → Vsmap → VsmapIterator → VsmapIterator × Status
unfolding init_seek
seek_higher_eq key s i =
    let p = lower_bound (key_comp s) key s.container in
    (at i p, if p == end_of s then not_found else ok)

unfoldable pub seek_to_first : Vsmap → VsmapIterator → VsmapIterator × Status
unfolding init_seek
seek_to_first s i = if end_of s == 0 then (init_seek i, not_found) else (at i 0, ok)

unfoldable pub seek_to_last : Vsmap → VsmapIterator → VsmapIterator × Status
unfolding init_seek
seek_to_last s i = if end_of s == 0 then (init_seek i, not_found) else (at i (end_of s - 1), ok)

unfoldable pub is_next : Vsmap → VsmapIterator → VsmapIterator × Status
is_next s i = (i, if i.it == end_of s || i.it + 1 == end_of s then not_found else ok)

-- `++it_` is done where the iterator is not at the end already.
unfoldable pub next : Vsmap → VsmapIterator → VsmapIterator × Status
unfolding init_seek
next s i =
    if i.it == end_of s
    then (init_seek i, not_found)
    else (at i (i.it + 1), if i.it + 1 == end_of s then not_found else ok)

unfoldable pub prev : Vsmap → VsmapIterator → VsmapIterator × Status
unfolding init_seek
prev s i = if i.it == 0 then (init_seek i, not_found) else (at i (i.it - 1), ok)

-- The entry at the iterator; `none` at `end()`, where the source asserts.
unfoldable pub current : Vsmap → VsmapIterator → Option Entry
current s i = get_elem? s.container i.it

unfoldable pub key : Vsmap → VsmapIterator → Option Bytes
unfolding current
key s i = elim (current s i) [ none ↦ none | some e ↦ some e.0 ]

-- The length that a range gets, in the arithmetic of a 64-bit `size_t`.
unfoldable pub range_length : ℕ → ℕ → ℕ → ℕ
range_length size pos n =
    let last = (pos + n) % 2 ^ 64 in
    if ltb size last || ltb last pos then (size + 2 ^ 64 - pos) % 2 ^ 64 else n

-- The offsets in the value that the slice is made from; `none` where the constructor of the slice
-- gets no range of the value: at `end()`, or from past the value's end.
unfoldable pub read_range : ℕ → ℕ → Vsmap → VsmapIterator → Option (ℕ × ℕ)
unfolding current range_length
read_range pos n s i = elim (current s i) [
  | none ↦ none
  | some e ↦
      let n' = range_length (length e.1) pos n in
      if ltb (length e.1) pos then none else some (pos, (pos + n') % 2 ^ 64)
]

-- The base class returns `not_supported`. Else a copy of the range goes to the log, and the slice
-- is over the copy; `none` where there is nothing to copy: at `end()`, or past the value's end.
unfoldable pub write_range : ℕ → ℕ → Vsmap → VsmapIterator → Option (VsmapIterator × Status)
unfolding current range_length
write_range pos n s i =
    if i.writable
    then (elim (current s i) [
      | none ↦ none
      | some e ↦
          let n' = range_length (length e.1) pos n in
          if ltb (length e.1) (pos + n')
          then none
          else some (record i { log = i.log ++ (take n' (drop pos e.1), pos) ∷ [] }, ok)
    ])
    else some (i, not_supported)

-- `std::copy` of `bs` to the bytes from `pos`
unfoldable pub overwrite : Bytes → ℕ → Bytes → Bytes
overwrite [] pos bs = []
overwrite (x ∷ xs) zero [] = x ∷ xs
overwrite (x ∷ xs) zero (b ∷ bs) = b ∷ overwrite xs zero bs
overwrite (x ∷ xs) (suc pos) bs = x ∷ overwrite xs pos bs

-- the loop over the log, on the value at the iterator
unfoldable pub apply_log : List (Bytes × ℕ) → Bytes → Bytes
unfolding overwrite
apply_log [] value = value
apply_log ((bs, pos) ∷ log) value = apply_log log (overwrite value pos bs)

unfoldable pub commit : Vsmap → VsmapIterator → Vsmap × VsmapIterator × Status
unfolding current apply_log
commit s i =
    if i.writable
    then (elim (current s i) [
      | none ↦ (s, record i { log = [] }, ok)
      | some e ↦ (
        record s { container = assign i.it (apply_log i.log e.1) s.container },
        record i { log = [] },
        ok,
      )
    ])
    else (s, i, not_supported)

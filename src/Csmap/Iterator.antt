-- ===== src/Csmap/Iterator.antt =====
-- src/engines-experimental/csmap.cc: `csmap_iterator<true>` and `csmap_iterator<false>`. The iterator
-- owns the lock of the entry that it stands at; `unlock` throws where no lock is owned.
use pmemkv.Base.{
  ℕ, ◌+◌, ◌%◌, ◌^◌, Bool, false, ◌||◌, List, [], ◌∷◌, ◌++◌, Option, none, some, Bytes, length,
  get_elem?, take, drop, ltb, ◌==◌, if◌then◌else◌,
}
use pmemkv.Csmap.{ConcurrentMap, Csmap, key_comp, end_of}
use pmemkv.OrderedMap.{Entry}
use pmemkv.Status.{
  Status, ok, not_found, not_supported, Outcome, returns, throws, std_exception, ◌>>=◌,
}
use pmemkv.Vsmap.Iterator.{range_length, apply_log}

-- `writable` tells `csmap_iterator<false>` from `csmap_iterator<true>`; only it uses the log.
-- `node_lock` is the entry whose mutex is owned.
pub record CsmapIterator : Type 0 where
  pub writable : Bool
  pub it : ℕ
  pub node_lock : Option ℕ
  pub log : List (Bytes × ℕ)

-- `new_iterator` and `new_const_iterator`; `initial` is an iterator that was default-constructed.
unfoldable pub new_iterator : Bool → ℕ → CsmapIterator
new_iterator writable initial = record {
  writable = writable;
  it = initial;
  node_lock = none;
  log = [];
}

-- `std::unique_lock::unlock`, which throws a `std::system_error` without a lock
unfoldable pub unlock : CsmapIterator → Outcome CsmapIterator
unlock i = elim i.node_lock [
  | none ↦ throws (std_exception "Operation not permitted")
  | some e ↦ returns (record i { node_lock = none })
]

-- The base class's `abort` does nothing.
unfoldable pub abort : CsmapIterator → CsmapIterator
abort i = if i.writable then record i { log = [] } else i

module _ {C : Type 0} (m : ConcurrentMap C) (s : Csmap C) where
  abbrev last : ℕ
  last = end_of m false s

  abbrev less : Bytes → Bytes → Bool
  less = key_comp m false s

  unfoldable pub init_seek : CsmapIterator → Outcome CsmapIterator
  unfolding unlock abort
  init_seek i = do i' ← if i.it == last then returns i else unlock i; returns (abort i')

  -- The end of each seek, at the position that it has found.
  unfoldable pub land : CsmapIterator → ℕ → CsmapIterator × Status
  land i p =
      if p == last
      then (record i { it = p }, not_found)
      else (record i { it = p; node_lock = some p }, ok)

  unfoldable pub seek : Bytes → CsmapIterator → Outcome (CsmapIterator × Status)
  unfolding init_seek land
  seek key i = do i' ← init_seek i; returns (land i' (m.find less key s.container))

  unfoldable pub seek_lower : Bytes → CsmapIterator → Outcome (CsmapIterator × Status)
  unfolding init_seek land
  seek_lower key i = do i' ← init_seek i; returns (land i' (m.find_lower less key s.container))

  unfoldable pub seek_lower_eq : Bytes → CsmapIterator → Outcome (CsmapIterator × Status)
  unfolding init_seek land
  seek_lower_eq key i = do
    i' ← init_seek i
    returns (land i' (m.find_lower_eq less key s.container))

  unfoldable pub seek_higher : Bytes → CsmapIterator → Outcome (CsmapIterator × Status)
  unfolding init_seek land
  seek_higher key i = do i' ← init_seek i; returns (land i' (m.find_higher less key s.container))

  unfoldable pub seek_higher_eq : Bytes → CsmapIterator → Outcome (CsmapIterator × Status)
  unfolding init_seek land
  seek_higher_eq key i = do
    i' ← init_seek i
    returns (land i' (m.find_higher_eq less key s.container))

  unfoldable pub seek_to_first : CsmapIterator → Outcome (CsmapIterator × Status)
  unfolding init_seek
  seek_to_first i = do
    i' ← init_seek i
    returns (if last == 0 then (i', not_found) else (record i' { it = 0; node_lock = some 0 }, ok))

  unfoldable pub is_next : CsmapIterator → Outcome (CsmapIterator × Status)
  is_next i = returns (i, if i.it == last || i.it + 1 == last then not_found else ok)

  -- `++it_` is done where the iterator is not at the end already.
  unfoldable pub next : CsmapIterator → Outcome (CsmapIterator × Status)
  unfolding init_seek land
  next i = do
    i' ← init_seek i
    returns (if i'.it == last then (i', not_found) else land i' (i'.it + 1))

  -- The entry at the iterator; `none` at `end()`, where the source asserts.
  unfoldable pub current : CsmapIterator → Option Entry
  current i = get_elem? (m.entries s.container) i.it

  unfoldable pub key : CsmapIterator → Option Bytes
  unfolding current
  key i = elim (current i) [ none ↦ none | some e ↦ some e.0 ]

  -- The offsets in the value that `crange` gets; `none` where they are no range of the value: at
  -- `end()`, or from past the value's end.
  unfoldable pub read_range : ℕ → ℕ → CsmapIterator → Option (ℕ × ℕ)
  unfolding current range_length
  read_range pos n i = elim (current i) [
    | none ↦ none
    | some e ↦
        let n' = range_length (length e.1) pos n in
        if ltb (length e.1) pos then none else some (pos, (pos + n') % 2 ^ 64)
  ]

  -- The base class returns `not_supported`. Else a copy of the range goes to the log; `none` where
  -- there is nothing to copy: at `end()`, or past the value's end.
  unfoldable pub write_range : ℕ → ℕ → CsmapIterator → Option (CsmapIterator × Status)
  unfolding current range_length
  write_range pos n i =
      if i.writable
      then (elim (current i) [
        | none ↦ none
        | some e ↦
            let n' = range_length (length e.1) pos n in
            if ltb (length e.1) (pos + n')
            then none
            else some (record i { log = i.log ++ (take n' (drop pos e.1), pos) ∷ [] }, ok)
      ])
      else some (i, not_supported)

  -- The transaction that copies each entry of the log to the value. At `end()` there is no value
  -- to copy to.
  unfoldable pub commit : CsmapIterator → Csmap C × CsmapIterator × Status
  unfolding current apply_log
  commit i =
      if i.writable
      then (elim (current i) [
        | none ↦ (s, record i { log = [] }, ok)
        | some e ↦ (
          record s { container = m.assign_val i.it (apply_log i.log e.1) s.container },
          record i { log = [] },
          ok,
        )
      ])
      else (s, i, not_supported)

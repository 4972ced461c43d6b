-- ===== src/Vsmap/Updates.antt =====
-- Proofs about src/engines/vsmap.cc: `put`, `remove`, `get` and `exists` against the map that
-- the engine stands for.
use pmemkv.Base.{◌≡◌, refl, Option, none, some, Bytes, if◌then◌else◌, arith, is_some, Bool}
use pmemkv.Engine.{ValueCallback}
use pmemkv.OrderedMap.{lookup, equiv}
use pmemkv.OrderedMap.Lookup.{get_elem?-find, find-end}
use pmemkv.OrderedMap.Writes.{
  put_entry-IsSorted, lookup-put_entry, erase-IsSorted, lookup-erase, erase-erased,
}
use pmemkv.Status.{ok, not_found, returns}
use pmemkv.Vsmap.{Vsmap, key_comp, exists, get, put, remove}
use pmemkv.Vsmap.Queries.{IsValid}

-- The value under a key, or under one that the comparator does not tell from it.
abbrev pub value_of : Vsmap → Bytes → Option Bytes
value_of s key = lookup (key_comp s) key s.container

abbrev pub same_key : Vsmap → Bytes → Bytes → Bool
same_key s = equiv (key_comp s)

-- On a valid engine `get` calls back exactly once with the value under the key, or returns
-- `not_found` and does not call; `exists` answers alike; neither changes the engine.
pub get-value_of :
    {A : Type 0} (s : Vsmap) (key : Bytes) (callback : ValueCallback A) (arg : A)
    → IsValid s
    → (get A key callback s arg ≡ (elim (value_of s key) [
      | none ↦ (s, arg, returns not_found)
      | some v ↦ (s, callback v arg, returns ok)
    ]))
      × (exists key s tt ≡ (s, tt, returns (if is_some (value_of s key) then ok else not_found)))
unfolding get exists
get-value_of s key callback arg v = (
  ground (arith, get_elem?-find _ v.order key s.container v.sorted),
  ground (arith, find-end _ v.order key s.container v.sorted),
)

-- `put` returns `ok` and keeps the engine valid; afterwards the key, and each key that the
-- comparator does not tell from it, has the new value, and every other key what it had.
pub value_of-put :
    (s : Vsmap) (key value q : Bytes)
    → IsValid s
    → ((put key value s tt).2 ≡ returns ok)
      × IsValid (put key value s tt).0
      × (value_of (put key value s tt).0 q
          ≡ (if same_key s q key then some value else value_of s q))
unfolding put
value_of-put s key value q v = (
  refl,
  record { order = v.order; sorted = put_entry-IsSorted _ v.order key value s.container v.sorted },
  lookup-put_entry _ v.order q key value s.container v.sorted,
)

-- `remove` keeps the engine valid and returns `ok` exactly where the key had a value, else
-- `not_found`; afterwards neither the key nor one that the comparator does not tell from it has
-- a value, and every other key has what it had.
pub value_of-remove :
    (s : Vsmap) (key q : Bytes)
    → IsValid s
    → ((remove key s tt).2 ≡ returns (if is_some (value_of s key) then ok else not_found))
      × IsValid (remove key s tt).0
      × (value_of (remove key s tt).0 q ≡ (if same_key s q key then none else value_of s q))
unfolding remove
value_of-remove s key q v = (
  rw (erase-erased _ v.order key s.container v.sorted),
  record { order = v.order; sorted = erase-IsSorted _ v.order key s.container v.sorted },
  lookup-erase _ v.order q key s.container v.sorted,
)

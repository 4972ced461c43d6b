-- ===== src/Radix/Tests.antt =====
-- A cache over a container: a key with a newer value, a removed key and a new key.
use pmemkv.Base.{◌≡◌, refl, [], ◌∷◌, false}
use pmemkv.OrderedMap.{Map}
use pmemkv.Radix.{
  HeterogeneousRadix, value_ptr, tombstone_volatile, settle_at, settle, advance, dereferenceable,
  entry, continues, iterate_generic, merged_begin, get_all, count_all,
}
use pmemkv.Radix.Lookup.{IsAscending}
use pmemkv.Radix.Queries.{Merges, queries-Merges}
use pmemkv.Robinhood.Shards.{check_outside_tx}
use pmemkv.Status.{ok, returns}
use pmemkv.Tree3.{before, same}

abbrev cached : HeterogeneousRadix
cached = record {
  cache =
      (2 ∷ [], value_ptr (21 ∷ [])) ∷ (3 ∷ [], tombstone_volatile) ∷ (4 ∷ [], value_ptr []) ∷ [];
  container = (1 ∷ [], 10 ∷ []) ∷ (2 ∷ [], 20 ∷ []) ∷ (3 ∷ [], 30 ∷ []) ∷ [];
}

cache_order : IsAscending cached.cache
unfolding before
cache_order = ((refl, (refl, tt)), ((refl, tt), (tt, tt)))

container_order : IsAscending cached.container
unfolding before
container_order = ((refl, (refl, tt)), ((refl, tt), (tt, tt)))

three_keys : count_all cached false ≡ returns (3, ok)
unfolding count_all get_all merged_begin iterate_generic continues settle settle_at advance
    dereferenceable entry before same check_outside_tx
three_keys = refl

queries-Merges_example : (m : Map) × Merges cached m
queries-Merges_example = queries-Merges cached cache_order container_order

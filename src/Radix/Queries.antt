-- ===== src/Radix/Queries.antt =====
-- Proofs about src/engines-experimental/radix.cc: the queries over the merged iterator.
use pmemkv.Base.{
  ℕ, ◌+◌, ◌≤◌, ◌≡◌, ◌∙◌, refl, ap, Bool, true, false, not, ◌&&◌, Bytes, length, arith, Bool-cases,
  inl, inr,
}
use pmemkv.Engine.{KvCallback}
use pmemkv.OrderedMap.{Map}
use pmemkv.Radix.{
  Cache, HeterogeneousRadix, settle, iterate_generic, rounds, merged_begin, get_all,
  get_equal_below, get_below, pmem, count_all, count_below, count_equal_below, count_elements,
  get_above, get_equal_above, get_between, merged_lower_bound, merged_upper_bound, from_upper,
  from_lower, count_above, count_equal_above, count_between,
}
use pmemkv.Radix.Loop.{
  length-from_upper, length-from_lower, take_while-all, having-and, having-none, having-IsAscending,
  below_again, at_most_again, counted, length-overlay, iterate_generic-visit,
}
use pmemkv.Radix.Lookup.{IsAscending, at_key, resolve, overlay-IsAscending, at_key-overlay}
use pmemkv.Radix.Overlay.{overlay, settle-Shows}
use pmemkv.Radix.Ranges.{
  having, take_while, take_while-having, from_upper-overlay, from_lower-overlay,
}
use pmemkv.Robinhood.Shards.{check_outside_tx}
use pmemkv.Status.{Status, ok, returns}
use pmemkv.Tree3.{before, at_most}
use pmemkv.Tree3.Nodes.Order.{before_trans}
use pmemkv.Vsmap.Queries.{visit}

module _ (s : HeterogeneousRadix) where
  -- The queries are those of the entries `m`, in order, where the cache hides the container.
  pub record Merges (m : Map) : Type 1 where
    pub ascending : IsAscending m
    pub values : (q : Bytes) → at_key q m ≡ resolve (at_key q s.cache) (at_key q s.container)
    pub all :
        {A : Type 0} (callback : KvCallback A) (arg : A)
        → get_all s false A callback arg ≡ returns (visit m callback arg)
    pub above :
        {A : Type 0} (key : Bytes) (callback : KvCallback A) (arg : A)
        → get_above s false A key callback arg
          ≡ returns (visit (having (λ k. before key k) m) callback arg)
    pub equal_above :
        {A : Type 0} (key : Bytes) (callback : KvCallback A) (arg : A)
        → get_equal_above s false A key callback arg
          ≡ returns (visit (having (λ k. not (before k key)) m) callback arg)
    pub equal_below :
        {A : Type 0} (key : Bytes) (callback : KvCallback A) (arg : A)
        → get_equal_below s false A key callback arg
          ≡ returns (visit (having (λ k. at_most k key) m) callback arg)
    pub below :
        {A : Type 0} (key : Bytes) (callback : KvCallback A) (arg : A)
        → get_below s false A key callback arg
          ≡ returns (visit (having (λ k. before k key) m) callback arg)
    pub between :
        {A : Type 0} (key1 key2 : Bytes) (callback : KvCallback A) (arg : A)
        → get_between s false A key1 key2 callback arg
          ≡ returns (visit (having (λ k. before key1 k && before k key2) m) callback arg)
    pub counts :
        (key1 key2 : Bytes)
        → (count_all s false ≡ returns (length m, ok))
          × (count_above s false key1 ≡ returns (length (having (λ k. before key1 k) m), ok))
          × (count_equal_above s false key1
              ≡ returns (length (having (λ k. not (before k key1)) m), ok))
          × (count_equal_below s false key1 ≡ returns (length (having (λ k. at_most k key1) m), ok))
          × (count_below s false key1 ≡ returns (length (having (λ k. before k key1) m), ok))
          × (count_between s false key1 key2
              ≡ returns (length (having (λ k. before key1 k && before k key2) m), ok))

  abbrev merged : Map
  merged = overlay s.cache s.container

  -- a query from where the iterators of both containers stand
  query-visit :
      {A : Type 0} (d : Cache) (p : Map) (test : Bytes → Bool) (callback : KvCallback A) (arg : A)
      → length d + length p ≤ length s.cache + length s.container
      → iterate_generic (rounds s) test callback (settle pmem d p) arg
        ≡ visit (take_while test (overlay d p)) callback arg
  query-visit d p test callback arg l =
      iterate_generic-visit (length s.cache + length s.container) test callback (settle pmem d p)
        (overlay d p) arg (settle-Shows pmem d p) (omega (arith, l, length-overlay d p))

  module _ (a : IsAscending s.cache) (c : IsAscending s.container) {A : Type 0}
      (callback : KvCallback A) (arg : A) where
    sorted : IsAscending merged
    sorted = overlay-IsAscending s.cache s.container a c

    all-visit : get_all s false A callback arg ≡ returns (visit merged callback arg)
    unfolding get_all check_outside_tx merged_begin
    all-visit =
        ap (λ (r : A × Status). returns r)
          (query-visit s.cache s.container (λ k. true) callback arg (omega arith)
            ∙ rw (take_while-all merged) refl)

    equal_below-visit :
        (key : Bytes)
        → get_equal_below s false A key callback arg
          ≡ returns (visit (having (λ k. at_most k key) merged) callback arg)
    unfolding get_equal_below check_outside_tx merged_begin
    equal_below-visit key =
        ap (λ (r : A × Status). returns r)
          (query-visit s.cache s.container (λ k. at_most k key) callback arg (omega arith)
            ∙ rw (take_while-having (λ k. at_most k key) merged (at_most_again key) sorted) refl)

    below-visit :
        (key : Bytes)
        → get_below s false A key callback arg
          ≡ returns (visit (having (λ k. before k key) merged) callback arg)
    unfolding get_below check_outside_tx merged_begin
    below-visit key =
        ap (λ (r : A × Status). returns r)
          (query-visit s.cache s.container (λ k. before k key) callback arg (omega arith)
            ∙ rw (take_while-having (λ k. before k key) merged (below_again key) sorted) refl)

    upper-visit :
        (key : Bytes) (test : Bytes → Bool)
        → iterate_generic (rounds s) test callback (merged_upper_bound s key) arg
          ≡ visit (take_while test (having (λ k. before key k) merged)) callback arg
    unfolding merged_upper_bound
    upper-visit key test =
        query-visit (from_upper key s.cache) (from_upper key s.container) test callback arg
          (omega (arith, length-from_upper key s.cache, length-from_upper key s.container))
        ∙ rw (from_upper-overlay key s.cache s.container a c) refl

    above-visit :
        (key : Bytes)
        → get_above s false A key callback arg
          ≡ returns (visit (having (λ k. before key k) merged) callback arg)
    unfolding get_above check_outside_tx
    above-visit key =
        ap (λ (r : A × Status). returns r)
          (upper-visit key (λ k. true)
            ∙ rw (take_while-all (having (λ k. before key k) merged)) refl)

    equal_above-visit :
        (key : Bytes)
        → get_equal_above s false A key callback arg
          ≡ returns (visit (having (λ k. not (before k key)) merged) callback arg)
    unfolding get_equal_above check_outside_tx merged_lower_bound
    equal_above-visit key =
        ap (λ (r : A × Status). returns r)
          (query-visit (from_lower key s.cache) (from_lower key s.container) (λ k. true) callback
              arg (omega (arith, length-from_lower key s.cache, length-from_lower key s.container))
            ∙ rw
                (
                  from_lower-overlay key s.cache s.container a c,
                  take_while-all (having (λ k. not (before k key)) merged),
                )
                refl)

    between-visit :
        (key1 key2 : Bytes)
        → get_between s false A key1 key2 callback arg
          ≡ returns (visit (having (λ k. before key1 k && before k key2) merged) callback arg)
    unfolding get_between check_outside_tx visit
    between-visit key1 key2 = elim (Bool-cases (before key1 key2)) [
      | inl h ↦ rw h (
          ap (λ (r : A × Status). returns r)
            (upper-visit key1 (λ k. before k key2)
              ∙ rw
                  (
                    take_while-having (λ k. before k key2) (having (λ k. before key1 k) merged)
                        (below_again key2) (having-IsAscending (λ k. before key1 k) merged sorted),
                    having-and (λ k. before key1 k) (λ k. before k key2) merged,
                  )
                  refl))
      | inr h ↦
          rw
            (
              h,
              having-none (λ k. before key1 k && before k key2) merged
                  (λ k. ground (arith, before_trans key1 k key2)),
            )
            refl
    ]

  -- With a cache and a container in the order of their keys, the queries outside of a transaction
  -- visit entries in the order
  -- of their keys in which each key has the value that the cache points to, nothing where the cache
  -- has a tombstone, and what the container has where the cache does not know the key. Each
  -- query visits those in its range, until the callback stops it, and each count is their number.
  pub queries-Merges : IsAscending s.cache → IsAscending s.container → (m : Map) × Merges m
  unfolding count_all count_above count_equal_above count_equal_below count_below count_between
  queries-Merges a c = (
    merged,
    record {
      ascending = overlay-IsAscending s.cache s.container a c;
      values = λ q. at_key-overlay q s.cache s.container a c;
      all = λ {A} callback arg. all-visit a c callback arg;
      above = λ {A} key callback arg. above-visit a c callback arg key;
      equal_above = λ {A} key callback arg. equal_above-visit a c callback arg key;
      equal_below = λ {A} key callback arg. equal_below-visit a c callback arg key;
      below = λ {A} key callback arg. below-visit a c callback arg key;
      between = λ {A} key1 key2 callback arg. between-visit a c callback arg key1 key2;
      counts = λ key1 key2. (
        all-visit a c count_elements 0 ∙ ap (λ (r : ℕ × Status). returns r) (counted _),
        above-visit a c count_elements 0 key1 ∙ ap (λ (r : ℕ × Status). returns r) (counted _),
        equal_above-visit a c count_elements 0 key1
            ∙ ap (λ (r : ℕ × Status). returns r) (counted _),
        equal_below-visit a c count_elements 0 key1
            ∙ ap (λ (r : ℕ × Status). returns r) (counted _),
        below-visit a c count_elements 0 key1 ∙ ap (λ (r : ℕ × Status). returns r) (counted _),
        between-visit a c count_elements 0 key1 key2
            ∙ ap (λ (r : ℕ × Status). returns r) (counted _),
      );
    },
  )

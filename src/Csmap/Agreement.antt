-- ===== src/Csmap/Agreement.antt =====
-- Proofs about src/engines-experimental/csmap.cc: outside of a transaction the engine does what
-- src/engines/vsmap.cc does on the same entries.
use pmemkv.Base.{
  ℕ, refl, ap, Bool, true, false, none, some, Bytes, get_elem?, arith, Bool-cases, inl, inr,
}
use pmemkv.Comparator.Persistent.{pmemobj_less}
use pmemkv.Csmap
use pmemkv.Csmap.{ConcurrentMap, Csmap, outside_tx, iterate, iterate_rest, key_comp}
use pmemkv.Csmap.Laws.{IsConcurrentMap}
use pmemkv.Csmap.View.{view, Agrees, iterate-Vsmap, IsLikeVsmap}
use pmemkv.Engine.{KvCallback, ValueCallback}
use pmemkv.OrderedMap
use pmemkv.OrderedMap.{Map}
use pmemkv.Status.{Status, ok, not_found, returns}
use pmemkv.Vsmap
use pmemkv.Vsmap.{Vsmap, iterate_through_pairs}

module _ {C : Type 0} (m : ConcurrentMap C) where
  module _ (laws : IsConcurrentMap m) (s : Csmap C) where
    abbrev less : Bytes → Bytes → Bool
    less = key_comp m false s

    abbrev c : C
    c = s.container

    count_all-Vsmap : (cnt : ℕ) → Agrees m false (Csmap.count_all m false) Vsmap.count_all s cnt
    unfolding Csmap.count_all Vsmap.count_all outside_tx
    count_all-Vsmap cnt = rw (laws.size c) refl

    count_above-Vsmap :
        (key : Bytes) (cnt : ℕ)
        → Agrees m false (Csmap.count_above m false key) (Vsmap.count_above key) s cnt
    unfolding Csmap.count_above Vsmap.count_above outside_tx pmemobj_less
    count_above-Vsmap key cnt = rw (laws.upper_bound less key c) refl

    count_equal_above-Vsmap :
        (key : Bytes) (cnt : ℕ)
        → Agrees m false (Csmap.count_equal_above m false key) (Vsmap.count_equal_above key) s cnt
    unfolding Csmap.count_equal_above Vsmap.count_equal_above outside_tx pmemobj_less
    count_equal_above-Vsmap key cnt = rw (laws.lower_bound less key c) refl

    count_equal_below-Vsmap :
        (key : Bytes) (cnt : ℕ)
        → Agrees m false (Csmap.count_equal_below m false key) (Vsmap.count_equal_below key) s cnt
    unfolding Csmap.count_equal_below Vsmap.count_equal_below outside_tx pmemobj_less
    count_equal_below-Vsmap key cnt = rw (laws.upper_bound less key c) refl

    count_below-Vsmap :
        (key : Bytes) (cnt : ℕ)
        → Agrees m false (Csmap.count_below m false key) (Vsmap.count_below key) s cnt
    unfolding Csmap.count_below Vsmap.count_below outside_tx pmemobj_less
    count_below-Vsmap key cnt = rw (laws.lower_bound less key c) refl

    count_between-Vsmap :
        (key1 key2 : Bytes) (cnt : ℕ)
        → Agrees m false
            (Csmap.count_between m false key1 key2)
            (Vsmap.count_between key1 key2)
            s
            cnt
    unfolding Csmap.count_between Vsmap.count_between outside_tx pmemobj_less
    count_between-Vsmap key1 key2 cnt =
        rw (laws.upper_bound less key1 c, laws.lower_bound less key2 c) refl

    get_all-Vsmap :
        {A : Type 0} (callback : KvCallback A) (arg : A)
        → Agrees m false (Csmap.get_all m false A callback) (Vsmap.get_all A callback) s arg
    unfolding Csmap.get_all Vsmap.get_all outside_tx
    get_all-Vsmap callback arg = rw (iterate-Vsmap m s _ _ callback arg) refl

    get_above-Vsmap :
        {A : Type 0} (key : Bytes) (callback : KvCallback A) (arg : A)
        → Agrees m false
            (Csmap.get_above m false A key callback)
            (Vsmap.get_above A key callback)
            s
            arg
    unfolding Csmap.get_above Vsmap.get_above outside_tx pmemobj_less
    get_above-Vsmap key callback arg =
        rw (laws.upper_bound less key c, iterate-Vsmap m s _ _ callback arg) refl

    get_equal_above-Vsmap :
        {A : Type 0} (key : Bytes) (callback : KvCallback A) (arg : A)
        → Agrees m false
            (Csmap.get_equal_above m false A key callback)
            (Vsmap.get_equal_above A key callback)
            s
            arg
    unfolding Csmap.get_equal_above Vsmap.get_equal_above outside_tx pmemobj_less
    get_equal_above-Vsmap key callback arg =
        rw (laws.lower_bound less key c, iterate-Vsmap m s _ _ callback arg) refl

    get_equal_below-Vsmap :
        {A : Type 0} (key : Bytes) (callback : KvCallback A) (arg : A)
        → Agrees m false
            (Csmap.get_equal_below m false A key callback)
            (Vsmap.get_equal_below A key callback)
            s
            arg
    unfolding Csmap.get_equal_below Vsmap.get_equal_below outside_tx pmemobj_less
    get_equal_below-Vsmap key callback arg =
        rw (laws.upper_bound less key c, iterate-Vsmap m s _ _ callback arg) refl

    get_below-Vsmap :
        {A : Type 0} (key : Bytes) (callback : KvCallback A) (arg : A)
        → Agrees m false
            (Csmap.get_below m false A key callback)
            (Vsmap.get_below A key callback)
            s
            arg
    unfolding Csmap.get_below Vsmap.get_below outside_tx pmemobj_less
    get_below-Vsmap key callback arg =
        rw (laws.lower_bound less key c, iterate-Vsmap m s _ _ callback arg) refl

    get_between-Vsmap :
        {A : Type 0} (key1 key2 : Bytes) (callback : KvCallback A) (arg : A)
        → Agrees m false
            (Csmap.get_between m false A key1 key2 callback)
            (Vsmap.get_between A key1 key2 callback)
            s
            arg
    unfolding Csmap.get_between Vsmap.get_between outside_tx pmemobj_less
    get_between-Vsmap key1 key2 callback arg =
        rw
          (
            laws.upper_bound less key1 c,
            laws.lower_bound less key2 c,
            iterate-Vsmap m s _ _ callback arg,
          )
          refl

    exists-Vsmap : (key : Bytes) → Agrees m false (Csmap.exists m false key) (Vsmap.exists key) s tt
    unfolding Csmap.exists Vsmap.exists outside_tx pmemobj_less
    exists-Vsmap key = rw (laws.contains less key c) (ground arith)

    get-Vsmap :
        {A : Type 0} (key : Bytes) (callback : ValueCallback A) (arg : A)
        → Agrees m false (Csmap.get m false A key callback) (Vsmap.get A key callback) s arg
    unfolding Csmap.get Vsmap.get outside_tx pmemobj_less
    get-Vsmap {A} key callback arg =
        ap
          (λ (i : ℕ).
            let r : A × Status = elim (get_elem? (m.entries c) i) [
              | none ↦ (arg, not_found)
              | some e ↦ (callback e.1 arg, ok)
            ] in
            (view m s, r.0, returns r.1))
          (laws.find less key c)

    put-Vsmap :
        (key value : Bytes)
        → Agrees m false (Csmap.put m false key value) (Vsmap.put key value) s tt
    unfolding Csmap.put Vsmap.put outside_tx pmemobj_less
    put-Vsmap key value = elim (Bool-cases (OrderedMap.emplace less key value (m.entries c)).2) [
      | inl h ↦ rw (laws.emplaced_new less key value c, h, laws.emplaced less key value c) refl
      | inr h ↦
          rw
            (
              laws.emplaced_new less key value c,
              h,
              laws.assigned _ value _,
              laws.emplaced_at less key value c,
              laws.emplaced less key value c,
            )
            refl
    ]

    remove-Vsmap : (key : Bytes) → Agrees m false (Csmap.remove m false key) (Vsmap.remove key) s tt
    unfolding Csmap.remove Vsmap.remove outside_tx pmemobj_less
    remove-Vsmap key = elim (Bool-cases (OrderedMap.erase less key (m.entries c)).1) [
      | inl h ↦ rw (laws.erased_count less key c, h, laws.erased less key c) refl
      | inr h ↦ rw (laws.erased_count less key c, h, laws.erased less key c) refl
    ]

    methods_outside : IsLikeVsmap m false s
    methods_outside = record {
      count_all = count_all-Vsmap;
      count_above = count_above-Vsmap;
      count_equal_above = count_equal_above-Vsmap;
      count_equal_below = count_equal_below-Vsmap;
      count_below = count_below-Vsmap;
      count_between = count_between-Vsmap;
      get_all = λ {A} callback arg. get_all-Vsmap callback arg;
      get_above = λ {A} key callback arg. get_above-Vsmap key callback arg;
      get_equal_above = λ {A} key callback arg. get_equal_above-Vsmap key callback arg;
      get_equal_below = λ {A} key callback arg. get_equal_below-Vsmap key callback arg;
      get_below = λ {A} key callback arg. get_below-Vsmap key callback arg;
      get_between = λ {A} key1 key2 callback arg. get_between-Vsmap key1 key2 callback arg;
      exists = exists-Vsmap;
      get = λ {A} key callback arg. get-Vsmap key callback arg;
      put = put-Vsmap;
      remove = remove-Vsmap;
    }

    methods_inside : IsLikeVsmap m true s
    unfolding outside_tx Csmap.count_all Csmap.count_above Csmap.count_equal_above
        Csmap.count_equal_below Csmap.count_below Csmap.count_between Csmap.get_all Csmap.get_above
        Csmap.get_equal_above Csmap.get_equal_below Csmap.get_below Csmap.get_between Csmap.exists
        Csmap.get Csmap.put Csmap.remove
    methods_inside = record {
      count_all = λ cnt. refl;
      count_above = λ key cnt. refl;
      count_equal_above = λ key cnt. refl;
      count_equal_below = λ key cnt. refl;
      count_below = λ key cnt. refl;
      count_between = λ key1 key2 cnt. refl;
      get_all = λ {A} callback arg. refl;
      get_above = λ {A} key callback arg. refl;
      get_equal_above = λ {A} key callback arg. refl;
      get_equal_below = λ {A} key callback arg. refl;
      get_below = λ {A} key callback arg. refl;
      get_between = λ {A} key1 key2 callback arg. refl;
      exists = λ key. refl;
      get = λ {A} key callback arg. refl;
      put = λ key value. refl;
      remove = λ key. refl;
    }

    -- Outside of a transaction every method of csmap returns the status, and leaves the output or
    -- the callback's argument and the entries, that the method of vsmap does with the same order
    -- and entries. Inside of one it throws the scope error and changes nothing.
    pub methods-IsLikeVsmap : (in_tx : Bool) → IsLikeVsmap m in_tx s
    methods-IsLikeVsmap true = methods_inside
    methods-IsLikeVsmap false = methods_outside

-- ===== src/Blackhole.antt =====
-- src/engines/blackhole.h and blackhole.cc: an engine that takes every write and holds nothing. Its
-- object has no members, and neither has its iterator.
use pmemkv.Base.{ℕ}
use pmemkv.Engine.{Method, Engine, engine_base}
use pmemkv.Iterator.{failed, IteratorMethods, iterator_base}
use pmemkv.Status.{ok, not_found, returns}

-- the body of each count: `cnt = 0`
abbrev count_none : Method Unit ℕ
count_none s cnt = (s, 0, returns ok)

-- the body of each query: the callback is not called
abbrev find_none : {O : Type 0} → Method Unit O
find_none s o = (s, o, returns not_found)

abbrev take_request : Method Unit Unit
take_request s o = (s, o, returns ok)

unfoldable pub blackhole_iterator : IteratorMethods Unit
unfolding iterator_base
blackhole_iterator =
    iterator_base (λ key. take_request) (λ t. (t, returns (failed not_found)))
      (λ pos n t. (t, returns (failed not_found)))

-- The object behind an iterator is `tt`.
unfoldable pub blackhole : Engine Unit ⊥ Unit
unfolding engine_base
blackhole =
    record (engine_base "blackhole" (λ A key callback. find_none) (λ key value. take_request)
      (λ key. take_request)) {
        count_all = count_none;
        count_above = λ key. count_none;
        count_equal_above = λ key. count_none;
        count_equal_below = λ key. count_none;
        count_below = λ key. count_none;
        count_between = λ key1 key2. count_none;
        get_all = λ A callback. find_none;
        get_above = λ A key callback. find_none;
        get_equal_above = λ A key callback. find_none;
        get_equal_below = λ A key callback. find_none;
        get_below = λ A key callback. find_none;
        get_between = λ A key1 key2 callback. find_none;
        exists = λ key. find_none;
        new_iterator = λ s. (s, returns tt);
        new_const_iterator = λ s. (s, returns tt);
      }

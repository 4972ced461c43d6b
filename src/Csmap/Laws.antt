-- ===== src/Csmap/Laws.antt =====
-- src/engines-experimental/csmap.cc: what the engine relies on in `concurrent_map`, by the documented
-- effects of its operations, which are those of `std::map` where that has them.
use pmemkv.Base.{ℕ, ◌-◌, ◌≡◌, Bool, not, Bytes, length, ◌==◌, if◌then◌else◌}
use pmemkv.Csmap.{ConcurrentMap}
use pmemkv.OrderedMap
use pmemkv.OrderedMap.{Map, IsSorted}

-- the entry before a position, or `end()`
abbrev pub before_position : Map → ℕ → ℕ
before_position entries i = if i == 0 then length entries else i - 1

pub record IsConcurrentMap {C : Type 0} (m : ConcurrentMap C) : Type 0 where
  pub size : (c : C) → m.size c ≡ length (m.entries c)
  pub lower_bound :
      (less : Bytes → Bytes → Bool) (key : Bytes) (c : C)
      → m.lower_bound less key c ≡ OrderedMap.lower_bound less key (m.entries c)
  pub upper_bound :
      (less : Bytes → Bytes → Bool) (key : Bytes) (c : C)
      → m.upper_bound less key c ≡ OrderedMap.upper_bound less key (m.entries c)
  pub find :
      (less : Bytes → Bytes → Bool) (key : Bytes) (c : C)
      → m.find less key c ≡ OrderedMap.find less key (m.entries c)
  -- the greatest entry that is less than the key
  pub find_lower :
      (less : Bytes → Bytes → Bool) (key : Bytes) (c : C)
      → m.find_lower less key c
        ≡ before_position (m.entries c) (OrderedMap.lower_bound less key (m.entries c))
  -- the greatest entry that is not greater than the key
  pub find_lower_eq :
      (less : Bytes → Bytes → Bool) (key : Bytes) (c : C)
      → m.find_lower_eq less key c
        ≡ before_position (m.entries c) (OrderedMap.upper_bound less key (m.entries c))
  pub find_higher :
      (less : Bytes → Bytes → Bool) (key : Bytes) (c : C)
      → m.find_higher less key c ≡ OrderedMap.upper_bound less key (m.entries c)
  pub find_higher_eq :
      (less : Bytes → Bytes → Bool) (key : Bytes) (c : C)
      → m.find_higher_eq less key c ≡ OrderedMap.lower_bound less key (m.entries c)
  pub contains :
      (less : Bytes → Bytes → Bool) (key : Bytes) (c : C)
      → m.contains less key c ≡ not (OrderedMap.find less key (m.entries c) == length (m.entries c))
  pub emplaced :
      (less : Bytes → Bytes → Bool) (key value : Bytes) (c : C)
      → m.entries (m.try_emplace less key value c).0
        ≡ (OrderedMap.emplace less key value (m.entries c)).0
  pub emplaced_at :
      (less : Bytes → Bytes → Bool) (key value : Bytes) (c : C)
      → (m.try_emplace less key value c).1 ≡ (OrderedMap.emplace less key value (m.entries c)).1
  pub emplaced_new :
      (less : Bytes → Bytes → Bool) (key value : Bytes) (c : C)
      → (m.try_emplace less key value c).2 ≡ (OrderedMap.emplace less key value (m.entries c)).2
  pub assigned :
      (i : ℕ) (value : Bytes) (c : C)
      → m.entries (m.assign_val i value c) ≡ OrderedMap.assign i value (m.entries c)
  pub erased :
      (less : Bytes → Bytes → Bool) (key : Bytes) (c : C)
      → m.entries (m.unsafe_erase less key c).0 ≡ (OrderedMap.erase less key (m.entries c)).0
  -- how many entries were erased
  pub erased_count :
      (less : Bytes → Bytes → Bool) (key : Bytes) (c : C)
      → (m.unsafe_erase less key c).1
        ≡ (if (OrderedMap.erase less key (m.entries c)).1 then 1 else 0)

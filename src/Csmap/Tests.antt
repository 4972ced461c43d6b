-- ===== src/Csmap/Tests.antt =====
-- The engine over a sorted list of entries, which has the laws of the concurrent map.
use Prim.Native.String.{◌++◌}
use pmemkv.Base.{
  ◌≡◌, refl, true, false, not, [], ◌∷◌, none, some, length, ◌==◌ as nat_eq, if◌then◌else◌, arith,
}
use pmemkv.Comparator.{
  Comparator, binary_comparator, extract_comparator, volatile_compare, StrictWeakOrder,
}
use pmemkv.Comparator.Binary.{binary_comparator-order}
use pmemkv.Comparator.Persistent.{initialize, pmemobj_less}
use pmemkv.Config.{Config, object, get_object, get_checked_item, item_type}
use pmemkv.Csmap.{ConcurrentMap, Csmap, key_comp}
use pmemkv.Csmap.Agreement.{methods-IsLikeVsmap}
use pmemkv.Csmap.Iterator.{CsmapIterator, new_iterator}
use pmemkv.Csmap.Laws.{IsConcurrentMap, before_position}
use pmemkv.Csmap.Locks.{IsHeld, IsLikeIterator, iterator-IsLikeIterator}
use pmemkv.Csmap.Recovery.{recover}
use pmemkv.Csmap.Reopening.{recover-reopened}
use pmemkv.Csmap.View.{IsLikeVsmap}
use pmemkv.OrderedMap
use pmemkv.OrderedMap.{Map}
use text.Mathlib.Text.{◌==◌}
use pmemkv.Status.{returns, throws, error, comparator_mismatch}

abbrev ordered_map : ConcurrentMap Map
ordered_map = record {
  entries = λ c. c;
  size = λ c. length c;
  lower_bound = OrderedMap.lower_bound;
  upper_bound = OrderedMap.upper_bound;
  find = OrderedMap.find;
  find_lower = λ less key c. before_position c (OrderedMap.lower_bound less key c);
  find_lower_eq = λ less key c. before_position c (OrderedMap.upper_bound less key c);
  find_higher = OrderedMap.upper_bound;
  find_higher_eq = OrderedMap.lower_bound;
  contains = λ less key c. not (nat_eq (OrderedMap.find less key c) (length c));
  try_emplace = OrderedMap.emplace;
  assign_val = OrderedMap.assign;
  unsafe_erase =
      λ less key c. let (c', erased) = OrderedMap.erase less key c in (c', if erased then 1 else 0);
}

ordered_map-IsConcurrentMap : IsConcurrentMap ordered_map
ordered_map-IsConcurrentMap = record {
  size = λ c. refl;
  lower_bound = λ less key c. refl;
  upper_bound = λ less key c. refl;
  find = λ less key c. refl;
  find_lower = λ less key c. refl;
  find_lower_eq = λ less key c. refl;
  find_higher = λ less key c. refl;
  find_higher_eq = λ less key c. refl;
  contains = λ less key c. refl;
  emplaced = λ less key value c. refl;
  emplaced_at = λ less key value c. refl;
  emplaced_new = λ less key value c. refl;
  assigned = λ i value c. refl;
  erased = λ less key c. refl;
  erased_count = λ less key c. refl;
}

-- an engine with two entries
abbrev two_entries : Csmap Map
two_entries = record {
  compare = record { name = "__pmemkv_binary_comparator"; cmp = binary_comparator };
  container = (3 ∷ [], 30 ∷ []) ∷ (5 ∷ [], 50 ∷ []) ∷ [];
}

methods-IsLikeVsmap_example : IsLikeVsmap ordered_map false two_entries
methods-IsLikeVsmap_example =
    methods-IsLikeVsmap ordered_map ordered_map-IsConcurrentMap two_entries false

-- an iterator at the second entry
abbrev at_second : CsmapIterator
at_second = record { writable = true; it = 1; node_lock = some 1; log = [] }

at_second-IsHeld : IsHeld ordered_map two_entries at_second
at_second-IsHeld = record { within = omega arith; owns = refl }

-- A new iterator holds no lock at `end()`.
new_iterator-IsHeld : IsHeld ordered_map two_entries (new_iterator true 2)
unfolding new_iterator
new_iterator-IsHeld = record { within = omega arith; owns = refl }

two_entries-order : StrictWeakOrder (key_comp ordered_map false two_entries)
unfolding pmemobj_less volatile_compare
two_entries-order = binary_comparator-order

iterator-IsLikeIterator_example : IsLikeIterator ordered_map two_entries at_second
iterator-IsLikeIterator_example =
    iterator-IsLikeIterator ordered_map two_entries ordered_map-IsConcurrentMap two_entries-order
      at_second at_second-IsHeld

abbrev other : Comparator
other = record { cmp = λ a b. binary_comparator.cmp b a; name = "reversed" }

abbrev no_items : Config
no_items = []

made :
    recover [] (λ p. binary_comparator) no_items none
    ≡ returns (record two_entries { container = [] })
unfolding recover initialize extract_comparator get_object
made = refl

-- what the next process takes for the pointer in its config
abbrev with_other : Config
with_other = ("comparator", object 1 none (λ p. p)) ∷ []

others : extract_comparator (λ p. other) with_other ≡ returns other
unfolding extract_comparator get_object get_checked_item item_type
others = refl

recover-reopened_example :
    let s = record two_entries { container = [] } in
    recover [] (λ p. other) with_other (some (s.compare.name, two_entries.container)) ≡ (
      if s.compare.cmp.name == other.name
      then returns (record {
        compare = record { name = s.compare.cmp.name; cmp = other };
        container = two_entries.container;
      })
      else throws (
          error
            ("Comparator with name: \"" ++ s.compare.cmp.name ++ "\" expected")
            comparator_mismatch))
recover-reopened_example =
    recover-reopened [] two_entries.container (λ p. binary_comparator) (λ p. other) no_items
      with_other (record two_entries { container = [] }) other made others

-- ===== src/Vsmap/Iterator/Seek.antt =====
-- Proofs about the seeks of src/engines/vsmap.cc: where each of them lands.
use pmemkv.Base.{
  ℕ, zero, suc, ◌-◌, ◌≡◌, ◌≤◌, ◌<◌, refl, true, not, [], ◌∷◌, Option, none, some, Bytes, length,
  get_elem?, take, drop, ◌==◌, if◌then◌else◌, arith, is_some,
}
use pmemkv.OrderedMap.{Map, Entry, keep}
use pmemkv.OrderedMap.Ranges.{
  drop-upper_bound, take-upper_bound, drop-lower_bound, take-lower_bound, upper_bound-le,
  lower_bound-le,
}
use pmemkv.Status.{Status, ok, not_found}
use pmemkv.Vsmap.{Vsmap, key_comp}
use pmemkv.Vsmap.Queries.{IsValid}
use pmemkv.Vsmap.Iterator.{
  VsmapIterator, current, seek_lower, seek_lower_eq, seek_higher, seek_higher_eq, seek_to_first,
  seek_to_last, step_back, at, end_of,
}

-- the first and the last of a list
unfoldable pub first_of_list : Map → Option Entry
first_of_list [] = none
first_of_list (e ∷ m) = some e

unfoldable pub last_of_list : Map → Option Entry
last_of_list [] = none
last_of_list (e ∷ []) = some e
last_of_list (e ∷ f ∷ m) = last_of_list (f ∷ m)

first-drop : (p : ℕ) (m : Map) → get_elem? m p ≡ first_of_list (drop p m)
unfolding first_of_list
first-drop zero [] = refl
first-drop zero (e ∷ m) = refl
first-drop (suc p) [] = refl
first-drop (suc p) (e ∷ m) = first-drop p m

last-take : (p : ℕ) (m : Map) → p < length m → get_elem? m p ≡ last_of_list (take (suc p) m)
unfolding last_of_list
last-take p [] h = absurd (omega arith)
last-take zero (e ∷ m) h = refl
last-take (suc p) (e ∷ []) h = absurd (omega arith)
last-take (suc p) (e ∷ f ∷ m) h = last-take p (f ∷ m) (omega arith)

get_elem?-some : (p : ℕ) (m : Map) → p < length m → is_some (get_elem? m p) ≡ true
get_elem?-some p [] h = absurd (omega arith)
get_elem?-some zero (e ∷ m) h = refl
get_elem?-some (suc p) (e ∷ m) h = get_elem?-some p m (omega arith)

get_elem?-none : (p : ℕ) (m : Map) → length m ≤ p → get_elem? m p ≡ none
get_elem?-none p [] h = refl
get_elem?-none zero (e ∷ m) h = absurd (omega arith)
get_elem?-none (suc p) (e ∷ m) h = get_elem?-none p m (omega arith)

suc-sub-one : (n : ℕ) → suc n - 1 ≡ n
suc-sub-one n = omega arith

get_elem?-last : (m : Map) → get_elem? m (length m - 1) ≡ last_of_list m
unfolding last_of_list
get_elem?-last [] = refl
get_elem?-last (e ∷ []) = refl
get_elem?-last (e ∷ f ∷ m) =
    rw (suc-sub-one (suc (length m))) (rw (suc-sub-one (length m)) at (get_elem?-last (f ∷ m)))

-- The iterator stands on the entry `target`, and the status is `ok`; or there is no such entry,
-- the iterator is at no entry and the status is `not_found`.
abbrev pub LandsOn : Vsmap → VsmapIterator × Status → Option Entry → Type 0
LandsOn s r target = (current s r.0 ≡ target) × (r.1 ≡ (if is_some target then ok else not_found))

module _ (s : Vsmap) (i : VsmapIterator) where
  lands_forward :
      (p : ℕ)
      → p ≤ length s.container
      → LandsOn s
          (at i p, if p == end_of s then not_found else ok)
          (first_of_list (drop p s.container))
  unfolding current
  lands_forward p h = rw (← first-drop p s.container) (
    refl,
    ground (arith, get_elem?-some p s.container, get_elem?-none (length s.container) s.container),
  )

  lands_back :
      (p : ℕ)
      → p ≤ length s.container
      → LandsOn s (step_back s i p) (last_of_list (take p s.container))
  unfolding current last_of_list
  lands_back zero h = ground (arith, get_elem?-none (length s.container) s.container)
  lands_back (suc p) h = ground (arith, get_elem?-some p s.container, last-take p s.container)

  lands_first : LandsOn s (seek_to_first s i) (first_of_list s.container)
  unfolding current seek_to_first
  lands_first = rw (← first-drop 0 s.container) (
      ground (
        arith,
        get_elem?-some 0 s.container,
        get_elem?-none i.it s.container,
        get_elem?-none 0 s.container,
      ))

  lands_last : LandsOn s (seek_to_last s i) (last_of_list s.container)
  unfolding current seek_to_last
  lands_last = rw (← get_elem?-last s.container) (
      ground (
        arith,
        get_elem?-some (length s.container - 1) s.container,
        get_elem?-none i.it s.container,
        get_elem?-none (length s.container - 1) s.container,
      ))

-- On a valid engine each ordered seek lands on the nearest entry that its name asks for: the last
-- one below the key, or not above it, and the first one above the key, or not below it; the seeks
-- to the ends land on the first and the last entry. Where there is none, the status is
-- `not_found` and the iterator is on no entry.
pub seek-LandsOn :
    (s : Vsmap) (i : VsmapIterator) (k : Bytes)
    → IsValid s
    → LandsOn s (seek_lower k s i) (last_of_list (keep (λ j. key_comp s j k) s.container))
      × LandsOn s
          (seek_lower_eq k s i)
          (last_of_list (keep (λ j. not (key_comp s k j)) s.container))
      × LandsOn s (seek_higher k s i) (first_of_list (keep (λ j. key_comp s k j) s.container))
      × LandsOn s
          (seek_higher_eq k s i)
          (first_of_list (keep (λ j. not (key_comp s j k)) s.container))
      × LandsOn s (seek_to_first s i) (first_of_list s.container)
      × LandsOn s (seek_to_last s i) (last_of_list s.container)
unfolding seek_lower seek_lower_eq seek_higher seek_higher_eq
seek-LandsOn s i k v =
    let m = s.container in
    (
      rw (← take-lower_bound _ v.order k m v.sorted)
          (lands_back s i _ (lower_bound-le _ v.order k m)),
      rw (← take-upper_bound _ v.order k m v.sorted)
          (lands_back s i _ (upper_bound-le _ v.order k m)),
      rw (← drop-upper_bound _ v.order k m v.sorted)
          (lands_forward s i _ (upper_bound-le _ v.order k m)),
      rw (← drop-lower_bound _ v.order k m v.sorted)
          (lands_forward s i _ (lower_bound-le _ v.order k m)),
      lands_first s i,
      lands_last s i,
    )

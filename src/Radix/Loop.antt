-- ===== src/Radix/Loop.antt =====
-- Proofs about src/engines-experimental/radix.cc: the loop of a query over the merged iterator.
use pmemkv.Base.{
  ℕ, zero, suc, ◌+◌, ◌≤◌, ◌≡◌, ◌∙◌, refl, ap, Bool, true, false, ◌&&◌, List, [], ◌∷◌, some, Bytes,
  length, ◌==◌, if◌then◌else◌, arith, Bool-cases, inl, inr,
}
use pmemkv.Engine.{KvCallback}
use pmemkv.OrderedMap.{Map, Entry}
use pmemkv.Radix.{
  CacheValue, value_ptr, tombstone_volatile, tombstone_persistent, Cache, MergedIterator, settle,
  entry, advance, continues, iterate_generic, count_elements, from_upper, from_lower,
}
use pmemkv.Radix.Lookup.{IsAscending}
use pmemkv.Radix.Overlay.{overlay, overlay_at, emit, Shows, ended, shown, settle-Shows}
use pmemkv.Radix.Ranges.{Behind-having, having, take_while}
use pmemkv.Status.{ok, stopped_by_cb}
use pmemkv.Tree3.{before, at_most, same}
use pmemkv.Tree3.Nodes.Order.{at_most-eq, before_trans}
use pmemkv.Vsmap.Queries.{visit}

length-emit : (k : Bytes) (v : CacheValue) (m : Map) → length (emit k v m) ≤ suc (length m)
length-emit k (value_ptr v) m = omega arith
length-emit k tombstone_volatile m = omega arith
length-emit k tombstone_persistent m = omega arith

length-overlay_at :
    (k : Bytes) (v : CacheValue) (n : ℕ) (behind : Map → Map)
    → ((p : Map) → length (behind p) ≤ n + length p)
    → (p : Map) → length (overlay_at k v behind p) ≤ suc (n + length p)
length-overlay_at k v n behind f [] = omega (arith, length-emit k v (behind []), f [])
length-overlay_at k v n behind f ((j, w) ∷ p) = elim (Bool-cases (same k j)) [
  | inl s ↦ rw s (omega (arith, length-overlay_at k v n behind f p))
  | inr s ↦ elim (Bool-cases (before j k)) [
    | inl b ↦ rw (s, b) (omega (arith, length-overlay_at k v n behind f p))
    | inr b ↦ rw (s, b) (omega (arith, length-emit k v (behind ((j, w) ∷ p)), f ((j, w) ∷ p)))
  ]
]

pub length-overlay : (d : Cache) (p : Map) → length (overlay d p) ≤ length d + length p
unfolding overlay
length-overlay [] p = omega arith
length-overlay ((k, v) ∷ d) p =
    omega (arith, length-overlay_at k v (length d) (overlay d) (length-overlay d) p)

module _ {A : Type 0} (n : ℕ) (test : Bytes → Bool) (callback : KvCallback A) (i : MergedIterator)
    (arg : A) where
  loop_ends : continues test i ≡ false → iterate_generic (suc n) test callback i arg ≡ (arg, ok)
  unfolding iterate_generic
  loop_ends h = rw (h, iterate_generic) refl

  loop_goes_on :
      (e : Entry)
      → continues test i ≡ true
      → entry i ≡ some e
      → iterate_generic (suc n) test callback i arg ≡ (
          let (ret, arg') = callback e.0 e.1 arg in
          let rest = iterate_generic n test callback (advance i) arg' in
          if ret == 0 then rest else (arg', stopped_by_cb))
  unfolding iterate_generic
  loop_goes_on e h en = rw (h, en, iterate_generic) refl

-- The loop visits the entries that the iterator shows, as long as their keys pass the test.
pub iterate_generic-visit :
    {A : Type 0} (n : ℕ) (test : Bytes → Bool) (callback : KvCallback A) (i : MergedIterator)
    (m : Map) (arg : A)
    → Shows i m
    → length m ≤ n
    → iterate_generic (suc n) test callback i arg ≡ visit (take_while test m) callback arg
unfolding continues visit
iterate_generic-visit n test callback i m arg (ended h) l =
    loop_ends n test callback i arg (rw h refl)
iterate_generic-visit zero test callback i m arg (shown e c d p h en ad) l =
    absurd (omega (arith, l))
iterate_generic-visit (suc n) test callback i m arg (shown e c d p h en ad) l =
    elim (Bool-cases (test e.0)) [
      | inl t ↦
          let ih =
            iterate_generic-visit n test callback (settle c d p) (overlay d p)
              (callback e.0 e.1 arg).1 (settle-Shows c d p) (omega (arith, l)) in
          loop_goes_on (suc n) test callback i arg e (rw (h, en, t) refl) en ∙ rw (t, ad, ih) refl
      | inr t ↦ loop_ends (suc n) test callback i arg (rw (h, en, t) refl) ∙ rw t refl
    ]

module _ {V : Type 0} where
  pub length-from_upper :
      (key : Bytes) (m : List (Bytes × V)) → length (from_upper key m) ≤ length m
  length-from_upper key [] = omega arith
  length-from_upper key (e ∷ m) = ground (arith, length-from_upper key m)

  pub length-from_lower :
      (key : Bytes) (m : List (Bytes × V)) → length (from_lower key m) ≤ length m
  length-from_lower key [] = omega arith
  length-from_lower key (e ∷ m) = ground (arith, length-from_lower key m)

pub take_while-all : (m : Map) → take_while (λ k. true) m ≡ m
take_while-all [] = refl
take_while-all (e ∷ m) = ap (λ (r : Map). e ∷ r) (take_while-all m)

pub having-and : (t u : Bytes → Bool) (m : Map) → having u (having t m) ≡ having (λ k. t k && u k) m
having-and t u [] = refl
having-and t u (e ∷ m) = elim (Bool-cases (t e.0)) [
  | inl h ↦ elim (Bool-cases (u e.0)) [
    | inl g ↦ rw (h, g) (ap (λ (r : Map). e ∷ r) (having-and t u m))
    | inr g ↦ rw (h, g) (having-and t u m)
  ]
  | inr h ↦ rw h (having-and t u m)
]

pub having-none : (t : Bytes → Bool) (m : Map) → ((k : Bytes) → t k ≡ false) → having t m ≡ []
having-none t [] f = refl
having-none t (e ∷ m) f = rw (f e.0) (having-none t m f)

pub having-IsAscending : (t : Bytes → Bool) (m : Map) → IsAscending m → IsAscending (having t m)
having-IsAscending t [] a = tt
having-IsAscending t (e ∷ m) (b, a) = elim (Bool-cases (t e.0)) [
  | inl h ↦ rw h (Behind-having t e.0 m b, having-IsAscending t m a)
  | inr h ↦ rw h (having-IsAscending t m a)
]

pub below_again :
    (key k j : Bytes) → before k j ≡ true → before k key ≡ false → before j key ≡ false
below_again key k j h e = ground (arith, before_trans k j key)

pub at_most_again :
    (key k j : Bytes) → before k j ≡ true → at_most k key ≡ false → at_most j key ≡ false
at_most_again key k j h e = ground (arith, at_most-eq k key, at_most-eq j key, before_trans key k j)

visit-count : (m : Map) (n : ℕ) → visit m count_elements n ≡ (n + length m, ok)
unfolding visit
visit-count [] n = ground arith
visit-count (e ∷ m) n = visit-count m (n + 1) ∙ ground arith

pub counted : (m : Map) → visit m count_elements 0 ≡ (length m, ok)
counted m = visit-count m 0 ∙ ground arith

-- ===== src/OrderedMap/Ranges.antt =====
-- The positions of `lower_bound` and `upper_bound` cut a sorted map by its keys.
use pmemkv.Base.{
  ◌≡◌, ◌≤◌, ◌-◌, refl, Bool, true, false, not, ◌&&◌, [], ◌∷◌, Bytes, length, take, drop, arith,
}
use pmemkv.Comparator.{StrictWeakOrder}
use pmemkv.OrderedMap.{Map, find, lower_bound, upper_bound, Above, IsSorted, keep}

module _ (less : Bytes → Bytes → Bool) (o : StrictWeakOrder less) where
  pub Above-trans : (j k : Bytes) (m : Map) → less j k ≡ true → Above less k m → Above less j m
  Above-trans j k [] h a = tt
  Above-trans j k (e ∷ m) h a = (o.less_trans j k e.0 h a.0, Above-trans j k m h a.1)

  pub Above-of_not_less :
      (j k : Bytes) (m : Map) → less k j ≡ false → Above less k m → Above less j m
  Above-of_not_less j k [] h a = tt
  Above-of_not_less j k (e ∷ m) h a =
      (ground (arith, o.less_split k j e.0), Above-of_not_less j k m h a.1)

  keep-Above : (k : Bytes) (m : Map) → Above less k m → keep (λ j. less k j) m ≡ m
  unfolding keep
  keep-Above k [] a = refl
  keep-Above k (e ∷ m) a = ground (arith, keep-Above k m)

  -- all keys of `m` are above `b`, which is not less than `k`
  module _ (k b : Bytes) (h : less b k ≡ false) where
    keep-less_of_Above : (m : Map) → Above less b m → keep (λ j. less j k) m ≡ []
    unfolding keep
    keep-less_of_Above [] a = refl
    keep-less_of_Above (e ∷ m) a = ground (arith, keep-less_of_Above m, o.less_trans b e.0 k)

    keep-not_less_of_Above : (m : Map) → Above less b m → keep (λ j. not (less j k)) m ≡ m
    unfolding keep
    keep-not_less_of_Above [] a = refl
    keep-not_less_of_Above (e ∷ m) a =
        ground (arith, keep-not_less_of_Above m, o.less_trans b e.0 k)

  keep-not_less_Above : (k : Bytes) (m : Map) → Above less k m → keep (λ j. not (less k j)) m ≡ []
  unfolding keep
  keep-not_less_Above k [] a = refl
  keep-not_less_Above k (e ∷ m) a = ground (arith, keep-not_less_Above k m)

  keep-and_of_Above :
      (k : Bytes) (p : Bytes → Bool) (m : Map)
      → Above less k m
      → keep (λ j. less k j && p j) m ≡ keep p m
  unfolding keep
  keep-and_of_Above k p [] a = refl
  keep-and_of_Above k p (e ∷ m) a = ground (arith, keep-and_of_Above k p m)

  pub drop-upper_bound :
      (k : Bytes) (m : Map)
      → IsSorted less m
      → drop (upper_bound less k m) m ≡ keep (λ j. less k j) m
  unfolding upper_bound keep
  drop-upper_bound k [] s = refl
  drop-upper_bound k (e ∷ m) s =
      ground (arith, drop-upper_bound k m, keep-Above k m, Above-trans k e.0 m)

  pub take-upper_bound :
      (k : Bytes) (m : Map)
      → IsSorted less m
      → take (upper_bound less k m) m ≡ keep (λ j. not (less k j)) m
  unfolding upper_bound keep
  take-upper_bound k [] s = refl
  take-upper_bound k (e ∷ m) s =
      ground (arith, take-upper_bound k m, keep-not_less_Above k m, Above-trans k e.0 m)

  pub drop-lower_bound :
      (k : Bytes) (m : Map)
      → IsSorted less m
      → drop (lower_bound less k m) m ≡ keep (λ j. not (less j k)) m
  unfolding lower_bound keep
  drop-lower_bound k [] s = refl
  drop-lower_bound k (e ∷ m) s =
      ground
        (arith, drop-lower_bound k m, λ (h : less e.0 k ≡ false). keep-not_less_of_Above k e.0 h m)

  pub take-lower_bound :
      (k : Bytes) (m : Map)
      → IsSorted less m
      → take (lower_bound less k m) m ≡ keep (λ j. less j k) m
  unfolding lower_bound keep
  take-lower_bound k [] s = refl
  take-lower_bound k (e ∷ m) s =
      ground (arith, take-lower_bound k m, λ (h : less e.0 k ≡ false). keep-less_of_Above k e.0 h m)

  pub upper_bound-le : (k : Bytes) (m : Map) → upper_bound less k m ≤ length m
  unfolding upper_bound
  upper_bound-le k [] = omega arith
  upper_bound-le k (e ∷ m) = ground (arith, upper_bound-le k m)

  pub lower_bound-le : (k : Bytes) (m : Map) → lower_bound less k m ≤ length m
  unfolding lower_bound
  lower_bound-le k [] = omega arith
  lower_bound-le k (e ∷ m) = ground (arith, lower_bound-le k m)

  pub find-le : (k : Bytes) (m : Map) → find less k m ≤ length m
  unfolding find
  find-le k [] = omega arith
  find-le k (e ∷ m) = ground (arith, find-le k m)

  module _ (k1 k2 : Bytes) (h : less k1 k2 ≡ true) where
    -- between two ordered keys the end of the range does not stand before its beginning
    pub upper_bound-le-lower_bound : (m : Map) → upper_bound less k1 m ≤ lower_bound less k2 m
    unfolding upper_bound lower_bound
    upper_bound-le-lower_bound [] = omega arith
    upper_bound-le-lower_bound (e ∷ m) =
        ground (arith, upper_bound-le-lower_bound m, o.less_split k1 e.0 k2)

    pub slice_between :
        (m : Map)
        → IsSorted less m
        → take (lower_bound less k2 m - upper_bound less k1 m) (drop (upper_bound less k1 m) m)
          ≡ keep (λ j. less k1 j && less j k2) m
    unfolding upper_bound lower_bound keep
    slice_between [] s = refl
    slice_between (e ∷ m) s = ground (
      arith,
      slice_between m,
      o.less_split k1 e.0 k2,
      take-lower_bound k2 m,
      keep-and_of_Above k1 (λ j. less j k2) m,
      Above-trans k1 e.0 m,
      λ (h : less e.0 k2 ≡ false). keep-less_of_Above k2 e.0 h m,
    )

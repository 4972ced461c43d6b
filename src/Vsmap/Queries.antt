-- ===== src/Vsmap/Queries.antt =====
-- Proofs about src/engines/vsmap.cc: the queries over ranges of keys.
use native.Mathlib.Nat.{sub-zero}
use pmemkv.Base.{
  ℕ, zero, suc, ◌+◌, ◌-◌, ◌≡◌, ◌≤◌, refl, ◌∙◌, Bool, false, not, ◌&&◌, [], ◌∷◌, Bytes, length, take,
  drop, ◌==◌, if◌then◌else◌, arith, length-take, length-drop, take-length, Bool-cases, inl, inr,
}
use pmemkv.Comparator.{StrictWeakOrder}
use pmemkv.Engine.{KvCallback}
use pmemkv.OrderedMap.{Map, IsSorted, keep}
use pmemkv.OrderedMap.Ranges.{
  drop-upper_bound, take-upper_bound, drop-lower_bound, take-lower_bound, upper_bound-le,
  lower_bound-le, slice_between, upper_bound-le-lower_bound,
}
use pmemkv.Status.{Status, ok, stopped_by_cb, Outcome, returns}
use pmemkv.Vsmap.{
  Vsmap, key_comp, iterate_from, iterate_through_pairs, count_all, count_above, count_equal_above,
  count_equal_below, count_below, count_between, get_all, get_above, get_equal_above,
  get_equal_below, get_below, get_between,
}

-- The container is sorted by an order as `std::map` asks for.
pub record IsValid (s : Vsmap) : Type 0 where
  pub order : StrictWeakOrder (key_comp s)
  pub sorted : IsSorted (key_comp s) s.container

-- The callback at each entry in turn, until it returns a number other than 0.
unfoldable pub visit : {A : Type 0} → Map → KvCallback A → A → A × Status
visit [] callback arg = (arg, ok)
visit ((k, v) ∷ m) callback arg =
    let (ret, arg') = callback k v arg in
    let rest = visit m callback arg' in if ret == 0 then rest else (arg', stopped_by_cb)

iterate_from-visit :
    {A : Type 0} (n i last : ℕ) (m : Map) (callback : KvCallback A) (arg : A)
    → last ≡ i + n
    → iterate_from i last m callback arg ≡ visit (take n m) callback arg
unfolding iterate_from visit
iterate_from-visit zero i last [] callback arg h = refl
iterate_from-visit zero i last (e ∷ m) callback arg h = ground arith
iterate_from-visit (suc n) i last [] callback arg h = refl
iterate_from-visit (suc n) i last (e ∷ m) callback arg h =
    ground
      (arith, iterate_from-visit n (suc i) last m callback (callback e.0 e.1 arg).1 (omega arith))

iterate_through_pairs-visit :
    {A : Type 0} (first last : ℕ) (m : Map) (callback : KvCallback A) (arg : A)
    → first ≤ last
    → iterate_through_pairs first last m callback arg
      ≡ visit (take (last - first) (drop first m)) callback arg
unfolding iterate_through_pairs
iterate_through_pairs-visit first last m callback arg h =
    iterate_from-visit (last - first) first last (drop first m) callback arg (omega arith)

iterate_from_start-visit :
    {A : Type 0} (last : ℕ) (m : Map) (callback : KvCallback A) (arg : A)
    → iterate_through_pairs 0 last m callback arg ≡ visit (take last m) callback arg
iterate_from_start-visit last m callback arg =
    iterate_through_pairs-visit 0 last m callback arg (omega arith) ∙ rw (sub-zero)

take-drop_rest : (i : ℕ) (m : Map) → take (length m - i) (drop i m) ≡ drop i m
take-drop_rest i m = rw (← length-drop i m) (take-length (drop i m))

keep-between_empty :
    (less : Bytes → Bytes → Bool)
    → StrictWeakOrder less
    → (k1 k2 : Bytes) (m : Map) → less k1 k2 ≡ false
    → keep (λ j. less k1 j && less j k2) m ≡ []
unfolding keep
keep-between_empty less o k1 k2 [] h = refl
keep-between_empty less o k1 k2 (e ∷ m) h =
    ground (arith, keep-between_empty less o k1 k2 m h, o.less_trans k1 e.0 k2)

-- The result of a query that leaves the engine as it is and visits the entries of `m`.
abbrev pub visiting : {A : Type 0} → Map → KvCallback A → Vsmap → A → Vsmap × A × Outcome Status
visiting m callback s arg = let r = visit m callback arg in (s, r.0, returns r.1)

module _ {A : Type 0} (s : Vsmap) (v : IsValid s) (k : Bytes) (callback : KvCallback A)
    (arg : A) where
  range_above :
      get_above A k callback s arg
      ≡ visiting (keep (λ j. key_comp s k j) s.container) callback s arg
  unfolding get_above
  range_above = rw (
    iterate_through_pairs-visit _ _ s.container callback arg
        (upper_bound-le _ v.order k s.container),
    take-drop_rest,
    drop-upper_bound _ v.order k s.container v.sorted,
  )

  range_equal_above :
      get_equal_above A k callback s arg
      ≡ visiting (keep (λ j. not (key_comp s j k)) s.container) callback s arg
  unfolding get_equal_above
  range_equal_above = rw (
    iterate_through_pairs-visit _ _ s.container callback arg
        (lower_bound-le _ v.order k s.container),
    take-drop_rest,
    drop-lower_bound _ v.order k s.container v.sorted,
  )

  range_equal_below :
      get_equal_below A k callback s arg
      ≡ visiting (keep (λ j. not (key_comp s k j)) s.container) callback s arg
  unfolding get_equal_below
  range_equal_below = rw (
    iterate_from_start-visit _ s.container callback arg,
    take-upper_bound _ v.order k s.container v.sorted,
  )

  range_below :
      get_below A k callback s arg
      ≡ visiting (keep (λ j. key_comp s j k) s.container) callback s arg
  unfolding get_below
  range_below = rw (
    iterate_from_start-visit _ s.container callback arg,
    take-lower_bound _ v.order k s.container v.sorted,
  )

range_all :
    {A : Type 0} (s : Vsmap) (callback : KvCallback A) (arg : A)
    → get_all A callback s arg ≡ visiting s.container callback s arg
unfolding get_all
range_all s callback arg = rw (iterate_from_start-visit _ s.container callback arg, take-length)

module _ (s : Vsmap) (v : IsValid s) (k1 k2 : Bytes) where
  range_between :
      {A : Type 0} (callback : KvCallback A) (arg : A)
      → get_between A k1 k2 callback s arg
        ≡ visiting (keep (λ j. key_comp s k1 j && key_comp s j k2) s.container) callback s arg
  unfolding get_between visit
  range_between callback arg = elim (Bool-cases (key_comp s k1 k2)) [
    | inl h ↦ rw (
      h,
      iterate_through_pairs-visit _ _ s.container callback arg
          (upper_bound-le-lower_bound _ v.order k1 k2 h s.container),
      slice_between _ v.order k1 k2 h s.container v.sorted,
    )
    | inr h ↦ rw (h, keep-between_empty _ v.order k1 k2 s.container h)
  ]

-- The five range queries and the full one, on a valid container, leave the engine as it is and
-- call back for exactly the entries whose keys lie in the range, in the order of the container,
-- until the callback returns a number other than 0; that stop is the status `stopped_by_cb`.
pub get_ranges-visit :
    {A : Type 0} (s : Vsmap) (k1 k2 : Bytes) (callback : KvCallback A) (arg : A)
    → IsValid s
    → (get_all A callback s arg ≡ visiting s.container callback s arg)
      × (get_above A k1 callback s arg
          ≡ visiting (keep (λ j. key_comp s k1 j) s.container) callback s arg)
      × (get_equal_above A k1 callback s arg
          ≡ visiting (keep (λ j. not (key_comp s j k1)) s.container) callback s arg)
      × (get_equal_below A k1 callback s arg
          ≡ visiting (keep (λ j. not (key_comp s k1 j)) s.container) callback s arg)
      × (get_below A k1 callback s arg
          ≡ visiting (keep (λ j. key_comp s j k1) s.container) callback s arg)
      × (get_between A k1 k2 callback s arg
          ≡ visiting (keep (λ j. key_comp s k1 j && key_comp s j k2) s.container) callback s arg)
get_ranges-visit s k1 k2 callback arg v = (
  range_all s callback arg,
  range_above s v k1 callback arg,
  range_equal_above s v k1 callback arg,
  range_equal_below s v k1 callback arg,
  range_below s v k1 callback arg,
  range_between s v k1 k2 callback arg,
)

abbrev pub counting : Map → Vsmap → Vsmap × ℕ × Outcome Status
counting m s = (s, length m, returns ok)

length-take_of_le : (n : ℕ) (m : Map) → n ≤ length m → length (take n m) ≡ n
length-take_of_le n m h = omega (arith, length-take {0} n m)

module _ (s : Vsmap) (v : IsValid s) (k : Bytes) (cnt : ℕ) where
  tally_above : count_above k s cnt ≡ counting (keep (λ j. key_comp s k j) s.container) s
  unfolding count_above
  tally_above = rw (← drop-upper_bound _ v.order k s.container v.sorted, length-drop)

  tally_equal_above :
      count_equal_above k s cnt ≡ counting (keep (λ j. not (key_comp s j k)) s.container) s
  unfolding count_equal_above
  tally_equal_above = rw (← drop-lower_bound _ v.order k s.container v.sorted, length-drop)

  tally_equal_below :
      count_equal_below k s cnt ≡ counting (keep (λ j. not (key_comp s k j)) s.container) s
  unfolding count_equal_below
  tally_equal_below = rw (
    ← take-upper_bound _ v.order k s.container v.sorted,
    length-take_of_le _ s.container (upper_bound-le _ v.order k s.container),
    sub-zero,
  )

  tally_below : count_below k s cnt ≡ counting (keep (λ j. key_comp s j k) s.container) s
  unfolding count_below
  tally_below = rw (
    ← take-lower_bound _ v.order k s.container v.sorted,
    length-take_of_le _ s.container (lower_bound-le _ v.order k s.container),
    sub-zero,
  )

module _ (s : Vsmap) (v : IsValid s) (k1 k2 : Bytes) (cnt : ℕ) where
  tally_between :
      count_between k1 k2 s cnt
      ≡ counting (keep (λ j. key_comp s k1 j && key_comp s j k2) s.container) s
  unfolding count_between
  tally_between = elim (Bool-cases (key_comp s k1 k2)) [
    | inl h ↦
        rw (h, ← slice_between _ v.order k1 k2 h s.container v.sorted, length-take, length-drop)
          (ground (arith, lower_bound-le _ v.order k2 s.container))
    | inr h ↦ rw (h, keep-between_empty _ v.order k1 k2 s.container h)
  ]

-- The counts of a valid container are the number of all its entries and the numbers of those whose
-- keys lie in the range, whatever the output variable held, and the engine stays as it is.
pub count_ranges-length :
    (s : Vsmap) (k1 k2 : Bytes) (cnt : ℕ)
    → IsValid s
    → (count_all s cnt ≡ counting s.container s)
      × (count_above k1 s cnt ≡ counting (keep (λ j. key_comp s k1 j) s.container) s)
      × (count_equal_above k1 s cnt ≡ counting (keep (λ j. not (key_comp s j k1)) s.container) s)
      × (count_equal_below k1 s cnt ≡ counting (keep (λ j. not (key_comp s k1 j)) s.container) s)
      × (count_below k1 s cnt ≡ counting (keep (λ j. key_comp s j k1) s.container) s)
      × (count_between k1 k2 s cnt
          ≡ counting (keep (λ j. key_comp s k1 j && key_comp s j k2) s.container) s)
unfolding count_all
count_ranges-length s k1 k2 cnt v = (
  refl,
  tally_above s v k1 cnt,
  tally_equal_above s v k1 cnt,
  tally_equal_below s v k1 cnt,
  tally_below s v k1 cnt,
  tally_between s v k1 k2 cnt,
)

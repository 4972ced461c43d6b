-- ===== src/OrderedMap/Writes.antt =====
-- `emplace`, `assign` and `erase` against the meaning of a map.
use pmemkv.Base.{◌≡◌, refl, Bool, true, [], ◌∷◌, none, some, Bytes, arith, if◌then◌else◌, is_some}
use pmemkv.Comparator.{StrictWeakOrder}
use pmemkv.OrderedMap.{Map, emplace, erase, assign, Above, IsSorted, lookup, equiv}
use pmemkv.OrderedMap.Ranges.{Above-trans, Above-of_not_less}
use pmemkv.OrderedMap.Lookup.{lookup-Above}

module _ (less : Bytes → Bytes → Bool) where
  -- what `emplace`, and `assign` where nothing was inserted, come to
  store : Bytes → Bytes → Map → Map
  store k v [] = (k, v) ∷ []
  store k v (e ∷ m) =
      let rest = e ∷ store k v m in
      if less e.0 k then rest else if less k e.0 then (k, v) ∷ e ∷ m else (e.0, v) ∷ m

  -- the call of `emplace` and the assignment through the iterator that it returns
  abbrev pub put_entry : Bytes → Bytes → Map → Map
  put_entry k v m = let (rest, i, new) = emplace less k v m in if new then rest else assign i v rest

  put_entry-store : (k v : Bytes) (m : Map) → put_entry k v m ≡ store k v m
  unfolding emplace assign store
  put_entry-store k v [] = refl
  put_entry-store k v (e ∷ m) = ground (arith, put_entry-store k v m)

module _ (less : Bytes → Bytes → Bool) (o : StrictWeakOrder less) where
  Above-store :
      (b k v : Bytes) (m : Map) → less b k ≡ true → Above less b m → Above less b (store less k v m)
  unfolding store
  Above-store b k v [] h a = (h, tt)
  Above-store b k v (e ∷ m) h a = ground (arith, Above-store b k v m)

  store-IsSorted : (k v : Bytes) (m : Map) → IsSorted less m → IsSorted less (store less k v m)
  unfolding store
  store-IsSorted k v [] s = (tt, tt)
  store-IsSorted k v (e ∷ m) s =
      ground (arith, store-IsSorted k v m, Above-store e.0 k v m, Above-trans less o k e.0 m)

  lookup-store :
      (q k v : Bytes) (m : Map)
      → IsSorted less m
      → lookup less q (store less k v m) ≡ (if equiv less q k then some v else lookup less q m)
  unfolding store lookup
  lookup-store q k v [] s = refl
  lookup-store q k v (e ∷ m) s = ground (
    arith,
    lookup-store q k v m,
    o.less_split q k e.0,
    o.less_split e.0 k q,
    o.less_split k q e.0,
    o.less_split e.0 q k,
    o.less_split q e.0 k,
    o.less_split k e.0 q,
  )

  pub put_entry-IsSorted :
      (k v : Bytes) (m : Map) → IsSorted less m → IsSorted less (put_entry less k v m)
  put_entry-IsSorted k v m s = rw (put_entry-store less k v m) (store-IsSorted k v m s)

  pub lookup-put_entry :
      (q k v : Bytes) (m : Map)
      → IsSorted less m
      → lookup less q (put_entry less k v m) ≡ (if equiv less q k then some v else lookup less q m)
  lookup-put_entry q k v m s = rw (put_entry-store less k v m) (lookup-store q k v m s)

  Above-erase : (b k : Bytes) (m : Map) → Above less b m → Above less b (erase less k m).0
  unfolding erase
  Above-erase b k [] a = tt
  Above-erase b k (e ∷ m) a = ground (arith, Above-erase b k m)

  pub erase-IsSorted : (k : Bytes) (m : Map) → IsSorted less m → IsSorted less (erase less k m).0
  unfolding erase
  erase-IsSorted k [] s = tt
  erase-IsSorted k (e ∷ m) s = ground (arith, erase-IsSorted k m, Above-erase e.0 k m)

  pub lookup-erase :
      (q k : Bytes) (m : Map)
      → IsSorted less m
      → lookup less q (erase less k m).0 ≡ (if equiv less q k then none else lookup less q m)
  unfolding erase lookup
  lookup-erase q k [] s = ground arith
  lookup-erase q k (e ∷ m) s = ground (
    arith,
    lookup-erase q k m,
    lookup-Above less o q m,
    Above-of_not_less less o q e.0 m,
    o.less_split q k e.0,
    o.less_split e.0 k q,
    o.less_split k q e.0,
    o.less_split e.0 q k,
    o.less_split q e.0 k,
    o.less_split k e.0 q,
  )

  -- `erase` reports an entry exactly where the map had one
  pub erase-erased :
      (k : Bytes) (m : Map) → IsSorted less m → (erase less k m).1 ≡ is_some (lookup less k m)
  unfolding erase lookup
  erase-erased k [] s = refl
  erase-erased k (e ∷ m) s =
      ground (arith, erase-erased k m, lookup-Above less o k m, Above-trans less o k e.0 m)

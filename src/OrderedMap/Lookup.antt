-- ===== src/OrderedMap/Lookup.antt =====
-- `find` against the meaning of a map.
use pmemkv.Base.{
  ◌≡◌, refl, ◌==◌, is_some, Bool, not, [], ◌∷◌, none, Bytes, length, get_elem?, arith,
}
use mathlib.Core.Option
use pmemkv.Comparator.{StrictWeakOrder}
use pmemkv.OrderedMap.{Map, Entry, find, Above, IsSorted, lookup}
use pmemkv.OrderedMap.Ranges.{Above-trans}

pub get_elem?-length {ℓ} :
    {A : Type ℓ} (m : mathlib.Core.List.List A) → get_elem? m (length m) ≡ none
get_elem?-length [] = refl
get_elem?-length (e ∷ m) = get_elem?-length m

module _ (less : Bytes → Bytes → Bool) (o : StrictWeakOrder less) where
  pub lookup-Above : (k : Bytes) (m : Map) → Above less k m → lookup less k m ≡ none
  unfolding lookup
  lookup-Above k [] a = refl
  lookup-Above k (e ∷ m) a = ground (arith, lookup-Above k m)

  -- The position that `find` returns is `end()` or that of the entry with the equivalent key.
  pub get_elem?-find :
      (k : Bytes) (m : Map)
      → IsSorted less m
      → Option.map (λ (e : Entry). e.1) (get_elem? m (find less k m)) ≡ lookup less k m
  unfolding find lookup
  get_elem?-find k [] s = refl
  get_elem?-find k (e ∷ m) s = ground (
    arith,
    get_elem?-find k m,
    get_elem?-length m,
    lookup-Above k m,
    Above-trans less o k e.0 m,
    o.less_trans k e.0 k,
    o.less_irrefl k,
  )

  -- `find` returns `end()` exactly where no entry has an equivalent key.
  pub find-end :
      (k : Bytes) (m : Map)
      → IsSorted less m
      → (find less k m == length m) ≡ not (is_some (lookup less k m))
  unfolding find lookup
  find-end k [] s = refl
  find-end k (e ∷ m) s = ground (
    arith,
    find-end k m,
    lookup-Above k m,
    Above-trans less o k e.0 m,
    o.less_trans k e.0 k,
    o.less_irrefl k,
  )

-- ===== src/OrderedMap.antt =====
-- `std::map` over keys and values of bytes, as the sorted engines use it: the entries in the order
-- of the comparison `less`. An iterator is a position in that order, and `end()` is the length.
pub mod Ranges
pub mod Lookup
pub mod Writes
use pmemkv.Base.{
  ℕ, zero, suc, ◌≡◌, Bool, true, false, not, ◌&&◌, List, [], ◌∷◌, Option, none, some, Bytes, length,
  if◌then◌else◌,
}

abbrev pub Entry : Type 0
Entry = Bytes × Bytes

abbrev pub Map : Type 0
Map = List Entry

module _ (less : Bytes → Bytes → Bool) where
  -- the first entry whose key is not less than `k`
  unfoldable pub lower_bound : Bytes → Map → ℕ
  lower_bound k [] = 0
  lower_bound k ((j, v) ∷ m) = if less j k then suc (lower_bound k m) else 0

  -- the first entry whose key is greater than `k`
  unfoldable pub upper_bound : Bytes → Map → ℕ
  upper_bound k [] = 0
  upper_bound k ((j, v) ∷ m) = if less k j then 0 else suc (upper_bound k m)

  -- the entry whose key is equivalent to `k`, or `end()`
  unfoldable pub find : Bytes → Map → ℕ
  find k [] = 0
  find k ((j, v) ∷ m) =
      let rest = suc (find k m) in if less j k then rest else if less k j then suc (length m) else 0

  -- The entry's position, and whether it was inserted; an equivalent key is left as it is.
  unfoldable pub emplace : Bytes → Bytes → Map → Map × ℕ × Bool
  emplace k v [] = ((k, v) ∷ [], 0, true)
  emplace k v ((j, w) ∷ m) =
      let (rest, i, new) = emplace k v m in
      if less j k
      then ((j, w) ∷ rest, suc i, new)
      else if less k j
      then ((k, v) ∷ (j, w) ∷ m, 0, true)
      else ((j, w) ∷ m, 0, false)

  -- the map, and whether an entry was erased
  unfoldable pub erase : Bytes → Map → Map × Bool
  erase k [] = ([], false)
  erase k ((j, w) ∷ m) =
      let (rest, erased) = erase k m in
      if less j k
      then ((j, w) ∷ rest, erased)
      else if less k j
      then ((j, w) ∷ m, false)
      else (m, true)

  -- neither key is less than the other
  abbrev pub equiv : Bytes → Bytes → Bool
  equiv a b = not (less a b) && not (less b a)

  -- The meaning of a map: the value of the entry whose key is equivalent to `k`.
  unfoldable pub lookup : Bytes → Map → Option Bytes
  lookup k [] = none
  lookup k ((j, v) ∷ m) = if equiv k j then some v else lookup k m

  -- every key is greater than `k`
  abbrev pub Above : Bytes → Map → Type 0
  Above k [] = Unit
  Above k (e ∷ m) = (less k e.0 ≡ true) × Above k m

  abbrev pub IsSorted : Map → Type 0
  IsSorted [] = Unit
  IsSorted (e ∷ m) = Above e.0 m × IsSorted m

-- `it->second = v` at a position
unfoldable pub assign : ℕ → Bytes → Map → Map
assign i v [] = []
assign zero v ((j, w) ∷ m) = (j, v) ∷ m
assign (suc i) v ((j, w) ∷ m) = (j, w) ∷ assign i v m

-- the entries that pass a test, in order
unfoldable pub keep : (Bytes → Bool) → Map → Map
keep p [] = []
keep p (e ∷ m) = if p e.0 then e ∷ keep p m else keep p m

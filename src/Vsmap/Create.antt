-- ===== src/Vsmap/Create.antt =====
-- Proofs about src/engines/vsmap.cc: the engine that the factory makes.
use Prim.Native.String.{String}
use pmemkv.Base.{ℕ, ◌≡◌, ◌<◌, ◌⊎◌, ◌↔◌, refl, true, some, none, [], ◌∷◌, Bytes, arith}
use pmemkv.Comparator.{Comparator, binary_comparator, binary_compare, volatile_compare}
use pmemkv.Comparator.Binary.{binary_comparator-order}
use pmemkv.Config.{Config, get, get_object, get_path, get_size}
use pmemkv.Status.{returns}
use pmemkv.Vsmap.{Vsmap, create, key_comp}
use pmemkv.Vsmap.Queries.{IsValid}

-- The lexicographic order: a key is below another one at the first byte where they differ, or where
-- it ends before the other one.
abbrev pub IsBelow : Bytes → Bytes → Type 0
IsBelow b [] = ⊥
IsBelow [] (y ∷ ys) = Unit
IsBelow (x ∷ xs) (y ∷ ys) = (x < y) ⊎ ((x ≡ y) × IsBelow xs ys)

IsBelow-iff : (a b : Bytes) → (volatile_compare binary_comparator a b ≡ true) ↔ IsBelow a b
unfolding volatile_compare binary_compare
IsBelow-iff [] [] = ground arith
IsBelow-iff [] (y ∷ ys) = ground arith
IsBelow-iff (x ∷ xs) [] = ground arith
IsBelow-iff (x ∷ xs) (y ∷ ys) = ground (arith, IsBelow-iff xs ys)

-- From a config with a path, a size and no comparator the factory makes an engine, which is valid
-- and has no entry, and whose keys are in the lexicographic order of their bytes.
pub create-IsValid :
    (deref : ℕ → Comparator) (cfg : Config) (path : String) (size : ℕ)
    → get_path cfg ≡ returns path
    → get_size cfg ≡ returns size
    → get "comparator" cfg ≡ none
    → (s : Vsmap) × (create deref (some cfg) ≡ returns s)
      × IsValid s
      × (s.container ≡ [])
      × ((a b : Bytes) → (key_comp s a b ≡ true) ↔ IsBelow a b)
unfolding create get_object
create-IsValid deref cfg path size p n h = (
  record { compare = binary_comparator; container = [] },
  ground arith,
  record { order = binary_comparator-order; sorted = tt },
  refl,
  IsBelow-iff,
)

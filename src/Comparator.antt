-- ===== src/Comparator.antt =====
-- src/comparator: the class `comparator`, the default order on keys, and the order that the
-- volatile sorted engines hand to `std::map`.
pub mod Binary
pub mod Persistent
mod Tests
use Prim.Native.String.{String}
use pmemkv.Base.{ℕ, ◌≡◌, Bool, true, false, [], ◌∷◌, none, some, Bytes, ltb, if◌then◌else◌}
use pmemkv.Base.Int.{ℤ, pos, negsuc, is_negative}
use pmemkv.Status.{Outcome, returns, ◌>>=◌}
use pmemkv.Config.{Config, get_object}

-- The class: the user's function with its argument applied, and the name.
pub record Comparator : Type 0 where
  pub cmp : Bytes → Bytes → ℤ
  pub name : String

unfoldable pub compare : Comparator → Bytes → Bytes → ℤ
compare c key1 key2 = c.cmp key1 key2

-- `string_view::compare`: the bytes in lexicographic order, a prefix before what it begins.
unfoldable pub binary_compare : Bytes → Bytes → ℤ
binary_compare [] [] = pos 0
binary_compare [] (y ∷ ys) = negsuc 0
binary_compare (x ∷ xs) [] = pos 1
binary_compare (x ∷ xs) (y ∷ ys) =
    let rest = binary_compare xs ys in if ltb x y then negsuc 0 else if ltb y x then pos 1 else rest

abbrev pub binary_comparator : Comparator
binary_comparator = record { cmp = binary_compare; name = "__pmemkv_binary_comparator" }

-- `deref` reads the object that the pointer in the config points to.
unfoldable pub extract_comparator : (ℕ → Comparator) → Config → Outcome Comparator
extract_comparator deref cfg = do
  cmp ← get_object "comparator" cfg
  elim cmp [ none ↦ returns binary_comparator | some p ↦ returns (deref p) ]

-- `volatile_compare::operator()`
unfoldable pub volatile_compare : Comparator → Bytes → Bytes → Bool
unfolding compare
volatile_compare c lhs rhs = is_negative (compare c lhs rhs)

-- What `std::map` asks of its order.
pub record StrictWeakOrder (less : Bytes → Bytes → Bool) : Type 0 where
  pub less_irrefl : (a : Bytes) → less a a ≡ false
  pub less_trans : (a b c : Bytes) → less a b ≡ true → less b c ≡ true → less a c ≡ true
  pub less_split : (a b c : Bytes) → less a b ≡ false → less b c ≡ false → less a c ≡ false

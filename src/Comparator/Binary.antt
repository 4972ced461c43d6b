-- ===== src/Comparator/Binary.antt =====
-- Proofs about src/comparator/comparator.h: the default order.
use pmemkv.Base.{◌≡◌, refl, true, false, [], ◌∷◌, Bytes, arith}
use pmemkv.Comparator.{StrictWeakOrder, binary_compare, binary_comparator, volatile_compare}

less_irrefl : (a : Bytes) → volatile_compare binary_comparator a a ≡ false
unfolding volatile_compare binary_compare
less_irrefl [] = refl
less_irrefl (x ∷ xs) = ground (arith, less_irrefl xs)

less_trans :
    (a b c : Bytes)
    → volatile_compare binary_comparator a b ≡ true
    → volatile_compare binary_comparator b c ≡ true
    → volatile_compare binary_comparator a c ≡ true
unfolding volatile_compare binary_compare
less_trans [] [] c h k = ground arith
less_trans [] (y ∷ ys) [] h k = ground arith
less_trans [] (y ∷ ys) (z ∷ zs) h k = ground arith
less_trans (x ∷ xs) [] c h k = ground arith
less_trans (x ∷ xs) (y ∷ ys) [] h k = ground arith
less_trans (x ∷ xs) (y ∷ ys) (z ∷ zs) h k = ground (arith, less_trans xs ys zs)

less_split :
    (a b c : Bytes)
    → volatile_compare binary_comparator a b ≡ false
    → volatile_compare binary_comparator b c ≡ false
    → volatile_compare binary_comparator a c ≡ false
unfolding volatile_compare binary_compare
less_split [] b [] h k = ground arith
less_split [] [] (z ∷ zs) h k = ground arith
less_split [] (y ∷ ys) (z ∷ zs) h k = ground arith
less_split (x ∷ xs) b [] h k = ground arith
less_split (x ∷ xs) [] (z ∷ zs) h k = ground arith
less_split (x ∷ xs) (y ∷ ys) (z ∷ zs) h k = ground (arith, less_split xs ys zs)

-- The default comparator is a strict weak order on keys, as `std::map` asks of its order.
pub binary_comparator-order : StrictWeakOrder (volatile_compare binary_comparator)
binary_comparator-order = record {
  less_irrefl = less_irrefl;
  less_trans = less_trans;
  less_split = less_split;
}

-- Keys that the default comparator does not tell apart are the same bytes.
pub eq_of_binary_compare :
    (a b : Bytes)
    → volatile_compare binary_comparator a b ≡ false
    → volatile_compare binary_comparator b a ≡ false
    → a ≡ b
unfolding volatile_compare binary_compare
eq_of_binary_compare [] [] h k = refl
eq_of_binary_compare [] (y ∷ ys) h k = ground arith
eq_of_binary_compare (x ∷ xs) [] h k = ground arith
eq_of_binary_compare (x ∷ xs) (y ∷ ys) h k = ground (arith, eq_of_binary_compare xs ys)

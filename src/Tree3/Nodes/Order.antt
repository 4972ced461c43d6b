-- ===== src/Tree3/Nodes/Order.antt =====
-- Proofs about src/engines-experimental/tree3.cc: the order of `std::string::compare`, and ranges of
-- keys with a bound below that is left out and a bound above that belongs to the range.
use pmemkv.Base.{
  ◌≡◌, refl, Bool, true, false, not, ◌&&◌, [], ◌∷◌, Option, none, some, Bytes, arith, ◌∙◌, ◌↔◌,
  Bool-cases, inl, inr,
}
use pmemkv.Comparator.{binary_compare, volatile_compare, binary_comparator}
use pmemkv.Comparator.Binary.{binary_comparator-order, eq_of_binary_compare}
use pmemkv.Tree3.{before, at_most, same}

before-eq : (a b : Bytes) → before a b ≡ volatile_compare binary_comparator a b
unfolding before volatile_compare
before-eq a b = refl

pub at_most-eq : (a b : Bytes) → at_most a b ≡ not (before b a)
unfolding at_most before binary_compare
at_most-eq [] [] = refl
at_most-eq [] (y ∷ ys) = refl
at_most-eq (x ∷ xs) [] = refl
at_most-eq (x ∷ xs) (y ∷ ys) = ground (arith, at_most-eq xs ys)

pub before_irrefl : (a : Bytes) → before a a ≡ false
before_irrefl a = before-eq a a ∙ binary_comparator-order.less_irrefl a

pub before_trans : (a b c : Bytes) → before a b ≡ true → before b c ≡ true → before a c ≡ true
unfolding before volatile_compare
before_trans a b c h k = binary_comparator-order.less_trans a b c h k

pub before_split : (a b c : Bytes) → before a b ≡ false → before b c ≡ false → before a c ≡ false
unfolding before volatile_compare
before_split a b c h k = binary_comparator-order.less_split a b c h k

pub eq_of_before : (a b : Bytes) → before a b ≡ false → before b a ≡ false → a ≡ b
unfolding before volatile_compare
eq_of_before a b h k = eq_of_binary_compare a b h k

pub same_iff : (a b : Bytes) → (same a b ≡ true) ↔ (a ≡ b)
unfolding same binary_compare
same_iff [] [] = ground arith
same_iff [] (y ∷ ys) = ground arith
same_iff (x ∷ xs) [] = ground arith
same_iff (x ∷ xs) (y ∷ ys) = ground (arith, same_iff xs ys)

-- A bound that is left out is `none`.
abbrev pub Bound : Type 0
Bound = Option Bytes

abbrev pub above : Bound → Bytes → Bool
above none q = true
above (some a) q = before a q

abbrev pub below : Bytes → Bound → Bool
below q none = true
below q (some b) = at_most q b

abbrev pub inside : Bound → Bound → Bytes → Bool
inside lo hi q = above lo q && below q hi

-- the range from `lo` to `hi` is not empty
abbrev pub less_bounds : Bound → Bound → Bool
less_bounds none hi = true
less_bounds (some a) none = true
less_bounds (some a) (some b) = before a b

pub at_most_of_above : (q k : Bytes) → at_most q k ≡ false → before k q ≡ true
at_most_of_above q k h = ground (arith, at_most-eq q k)

pub less_bounds_trans :
    (a b c : Bound) (k : Bytes)
    → b ≡ some k
    → less_bounds a b ≡ true
    → less_bounds b c ≡ true
    → less_bounds a c ≡ true
less_bounds_trans none b c k e h l = refl
less_bounds_trans (some a) b none k e h l = refl
less_bounds_trans (some a) none (some c) k e h l = cc
less_bounds_trans (some a) (some b) (some c) k e h l = before_trans a b c h l

-- What is at most `s` is at most what lies behind `s`.
pub at_most_widen : (q s k : Bytes) → at_most q s ≡ true → before s k ≡ true → at_most q k ≡ true
at_most_widen q s k h l = elim (Bool-cases (before k q)) [
  | inl g ↦ ground (arith, at_most-eq q s, before_trans s k q l g)
  | inr g ↦ ground (arith, at_most-eq q k)
]

pub above_widen :
    (lo : Bound) (k q : Bytes)
    → less_bounds lo (some k) ≡ true
    → before k q ≡ true
    → above lo q ≡ true
above_widen none k q h l = refl
above_widen (some a) k q h l = before_trans a k q h l

pub at_most_of_before : (a b : Bytes) → before a b ≡ true → at_most a b ≡ true
at_most_of_before a b h = elim (Bool-cases (before b a)) [
  | inl g ↦ ground (arith, before_trans a b a h g, before_irrefl a)
  | inr g ↦ ground (arith, at_most-eq a b)
]

pub above_of_less_bounds :
    (lo : Bound) (s : Bytes) → less_bounds lo (some s) ≡ true → above lo s ≡ true
above_of_less_bounds none s h = refl
above_of_less_bounds (some a) s h = h

pub below_widen :
    (q k : Bytes) (hi : Bound)
    → less_bounds (some k) hi ≡ true
    → at_most q k ≡ true
    → below q hi ≡ true
below_widen q k none l h = refl
below_widen q k (some b) l h = at_most_widen q k b h l

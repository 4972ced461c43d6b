-- ===== src/Comparator/Tests.antt =====
-- The default order at concrete keys.
use pmemkv.Base.{◌≡◌, refl, true, false, [], ◌∷◌}
use pmemkv.Comparator.{binary_compare, volatile_compare, binary_comparator}

prefix_first : volatile_compare binary_comparator (1 ∷ 2 ∷ []) (1 ∷ 2 ∷ 0 ∷ []) ≡ true
unfolding volatile_compare binary_compare
prefix_first = refl

not_less : volatile_compare binary_comparator (200 ∷ []) (200 ∷ []) ≡ false
unfolding volatile_compare binary_compare
not_less = refl

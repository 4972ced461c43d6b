-- ===== src/Engine/Tests.antt =====
-- The factories at a concrete registry.
use pmemkv.Base.{ℕ, ◌≡◌, refl, [], ◌∷◌, none}
use pmemkv.Engine.Factory.{Create, Factories, find_factory, get_names}
use pmemkv.Status.{returns}

abbrev numbered : ℕ → Create ℕ
numbered n cfg = returns n

abbrev registry : Factories ℕ
registry = ("cmap", numbered 1) ∷ ("vsmap", numbered 2) ∷ []

names : get_names registry ≡ "cmap, vsmap"
unfolding get_names
names = refl

stree_free : find_factory "stree" registry ≡ none
unfolding find_factory
stree_free = refl

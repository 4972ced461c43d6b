-- ===== src/Csmap/Reopening.antt =====
-- Proofs about src/engines-experimental/csmap.cc and src/comparator/pmemobj_comparator.h: a container
-- that is opened again.
use Prim.Native.String.{◌++◌}
use pmemkv.Base.{ℕ, ◌≡◌, refl, none, some, if◌then◌else◌, arith, Bool-cases, inl, inr}
use pmemkv.Comparator.{Comparator, extract_comparator}
use pmemkv.Comparator.Persistent.{PmemobjCompare, initialize, runtime_initialize}
use pmemkv.Config.{Config}
use pmemkv.Csmap.{Csmap}
use pmemkv.Csmap.Recovery.{recover}
use pmemkv.Status.{returns, throws, error, comparator_mismatch}
use text.Mathlib.Text.{◌==◌}

initialize-name :
    (cmp : Comparator) (c : PmemobjCompare)
    → initialize cmp ≡ returns c
    → (c.name ≡ cmp.name) × (c.cmp ≡ cmp)
unfolding initialize
initialize-name cmp c h = ground arith

recover-initialize :
    {C : Type 0} (empty : C) (deref : ℕ → Comparator) (cfg : Config) (s : Csmap C)
    → recover empty deref cfg none ≡ returns s
    → (s.compare.name ≡ s.compare.cmp.name) × (s.container ≡ empty)
unfolding recover initialize
recover-initialize empty deref cfg s h = ground arith

-- A container that was made with the comparator of a config is opened again, whatever was done to
-- its entries, with a comparator of the same name, which then orders the same entries. With a
-- comparator of another name the engine throws `comparator_mismatch`.
pub recover-reopened :
    {C : Type 0} (empty c : C) (deref deref' : ℕ → Comparator) (cfg cfg' : Config) (s : Csmap C)
    (cmp : Comparator)
    → recover empty deref cfg none ≡ returns s
    → extract_comparator deref' cfg' ≡ returns cmp
    → recover empty deref' cfg' (some (s.compare.name, c)) ≡ (
        if s.compare.cmp.name == cmp.name
        then returns
            (record { compare = record { name = s.compare.cmp.name; cmp = cmp }; container = c })
        else throws (
            error
              ("Comparator with name: \"" ++ s.compare.cmp.name ++ "\" expected")
              comparator_mismatch))
unfolding recover runtime_initialize
recover-reopened empty c deref deref' cfg cfg' s cmp made e =
    let n = (recover-initialize empty deref cfg s made).0 in
    rw (e, n)
      (elim (Bool-cases (s.compare.cmp.name == cmp.name)) [ inl h ↦ rw h refl | inr h ↦ rw h refl ])

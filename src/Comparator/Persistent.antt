-- ===== src/Comparator/Persistent.antt =====
-- src/comparator/pmemobj_comparator.h: the comparator that a container on persistent memory keeps.
-- Its name is stored with the container, and the pointer is set again by each process.
use Prim.Native.String.{String, ◌++◌}
use pmemkv.Base.{Bool, Bytes, if◌then◌else◌}
use pmemkv.Comparator.{Comparator, volatile_compare}
use pmemkv.Status.{Outcome, returns, throws, error, comparator_mismatch, throw_invalid_argument}
use text.Mathlib.Text.{◌==◌}

-- After either initialization `cmp` points to a comparator. Between two processes only the name
-- has a meaning.
pub record PmemobjCompare : Type 0 where
  pub name : String
  pub cmp : Comparator

-- On a new object, whose name is empty.
unfoldable pub initialize : Comparator → Outcome PmemobjCompare
initialize cmp =
    if cmp.name == ""
    then throw_invalid_argument "Comparator does not have a valid name"
    else returns (record { name = cmp.name; cmp = cmp })

-- On an object with a stored name.
unfoldable pub runtime_initialize : Comparator → String → Outcome PmemobjCompare
runtime_initialize cmp name =
    if name == cmp.name
    then returns (record { name = name; cmp = cmp })
    else throws (error ("Comparator with name: \"" ++ name ++ "\" expected") comparator_mismatch)

-- `operator()`
unfoldable pub pmemobj_less : PmemobjCompare → Bytes → Bytes → Bool
unfolding volatile_compare
pmemobj_less c lhs rhs = volatile_compare c.cmp lhs rhs

-- ===== src/Tree3.antt =====
-- src/engines-experimental/tree3.h and tree3.cc: the hybrid B+ tree. Inner nodes and the keys of the
-- leaves are volatile, the slots of the leaves are persistent.
pub mod Nodes
pub mod Pearson
pub mod Leaves
pub mod Methods
pub mod Slots
pub mod Filling
pub mod Sorting
pub mod Moving
pub mod Parts
pub mod Splitting
pub mod Scanning
pub mod Validity
pub mod Steps
pub mod Halves
pub mod Dividing
pub mod Midpoint
pub mod Split
pub mod Unused
pub mod States
pub mod Changes
pub mod Updates
pub mod Put
pub mod Remove
pub mod Recovery
pub mod Rebuilding
pub mod Reading
pub mod Sessions
pub mod UsedSlots
pub mod Visiting
mod Tests
use pmemkv.Base.{Bool, true, false, zero, suc, Bytes}
use pmemkv.Base.Int.{pos, negsuc, is_negative}
use pmemkv.Comparator.{binary_compare}

-- `a.compare(b) < 0`
unfoldable pub before : Bytes → Bytes → Bool
unfolding binary_compare
before a b = is_negative (binary_compare a b)

-- `a.compare(b) <= 0`
unfoldable pub at_most : Bytes → Bytes → Bool
unfolding binary_compare
at_most a b = elim (binary_compare a b) [
  | pos n ↦ elim n [ zero ↦ true | suc k ↦ false ]
  | negsuc n ↦ true
]

-- `a.compare(b) == 0`
unfoldable pub same : Bytes → Bytes → Bool
unfolding binary_compare
same a b = elim (binary_compare a b) [
  | pos n ↦ elim n [ zero ↦ true | suc k ↦ false ]
  | negsuc n ↦ false
]

-- ===== src/Csmap/Recovery.antt =====
-- src/engines-experimental/csmap.cc: `Recover`, on what the root object holds. `stored` is the name of
-- the comparator and the map of an earlier process, or `none` for a null root. Where the
-- transaction throws, the root stays null.
use Prim.Native.String.{String}
use pmemkv.Base.{ℕ, Option, none, some}
use pmemkv.Comparator.{Comparator, extract_comparator}
use pmemkv.Comparator.Persistent.{initialize, runtime_initialize}
use pmemkv.Config.{Config}
use pmemkv.Csmap.{Csmap}
use pmemkv.Pmemobj.{Pools, pmemobj_engine_base}
use pmemkv.Status.{Outcome, returns, ◌>>=◌}

-- `empty` is a new `concurrent_map`.
unfoldable pub recover :
    {C : Type 0} → C → (ℕ → Comparator) → Config → Option (String × C) → Outcome (Csmap C)
unfolding extract_comparator initialize runtime_initialize
recover empty deref cfg (some (name, c)) = do
  cmp ← extract_comparator deref cfg
  compare ← runtime_initialize cmp name
  returns (record { compare = compare; container = c })
recover empty deref cfg none = do
  cmp ← extract_comparator deref cfg
  compare ← initialize cmp
  returns (record { compare = compare; container = empty })

-- The constructor. `root` reads the root object at an address in the files.
unfoldable pub csmap :
    {C F P : Type 0}
    → C
    → Pools F P
    → (F → ℕ → Option (String × C))
    → (ℕ → Comparator)
    → Config
    → F
    → F × Outcome (Csmap C)
unfolding recover pmemobj_engine_base
csmap empty pools root deref cfg f =
    let (f', r) = pmemobj_engine_base pools cfg "pmemkv_csmap" f in
    (f', r >>= λ o. recover empty deref cfg (root f' o.root_oid))

-- ===== src/Pmemobj.antt =====
-- src/pmemobj_engine.h: the constructor of the engines on persistent memory, which opens a pool or
-- makes one. The pools of libpmemobj-cpp are a parameter; `F` is what they keep in files.
pub mod Existing
mod Tests
use Prim.Native.String.{String}
use pmemkv.Base.{ℕ, Bool, true, false, ◌&&◌, ◌||◌, not, Option, none, some, ◌==◌, if◌then◌else◌}
use pmemkv.Config.{Config, get_string, get_object, get_uint64, get_size}
use pmemkv.Status.{Outcome, returns, throws, Thrown, throw_invalid_argument, ◌>>=◌}

-- How a call for a pool ends: with the pool, by `pool_invalid_argument` with its text, or by
-- another exception.
pub data PoolResult (P : Type 0) : Type 0 where
  opened : P → PoolResult P
  pool_invalid_argument : String → PoolResult P
  failed : Thrown → PoolResult P

-- `pool<Root>::open` and `pool<Root>::create` by path, layout and size; the object of `root()` that
-- the engine's root pointer is in; and `pmemobj_pool_by_ptr`.
pub record Pools (F P : Type 0) : Type 0 where
  pub open_pool : String → String → F → PoolResult P
  pub create_pool : String → String → ℕ → F → F × PoolResult P
  pub root_of : P → ℕ
  pub pool_by_ptr : ℕ → P

-- `pmpool`, `root_oid` and `cfg_by_path`
pub record Opened (P : Type 0) : Type 0 where
  pub pmpool : P
  pub root_oid : ℕ
  pub cfg_by_path : Bool

-- The value of a flag, which is 0 if the config does not have it.
abbrev or_zero : Option ℕ → ℕ
or_zero none = 0
or_zero (some n) = n

-- `create_if_missing` and `create_or_error_if_exists`, for which `force_create` may stand
unfoldable pub flags : Config → Outcome (ℕ × ℕ)
unfolding get_uint64
flags cfg = do
  missing ← get_uint64 "create_if_missing" cfg
  exists ← get_uint64 "create_or_error_if_exists" cfg
  elim exists [
    | some n ↦ returns (or_zero missing, n)
    | none ↦ do force ← get_uint64 "force_create" cfg; returns (or_zero missing, or_zero force)
  ]

-- the items "path" and "oid"
unfoldable pub place_items : Config → Outcome (Option String × Option ℕ)
unfolding get_string get_object
place_items cfg = do path ← get_string "path" cfg; oid ← get_object "oid" cfg; returns (path, oid)

-- `catch (pmem::pool_invalid_argument &e)`, which throws `internal::invalid_argument`
abbrev pub caught : {P : Type 0} → PoolResult P → Outcome P
caught (opened p) = returns p
caught (pool_invalid_argument what) = throw_invalid_argument what
caught (failed e) = throws e

module _ {F P : Type 0} (pools : Pools F P) where
  unfoldable pub create_or_fail : String → ℕ → String → F → F × Outcome P
  create_or_fail path size layout f =
      let (f', r) = pools.create_pool path layout size f in (f', caught r)

  -- `create_or_fail` with what `get_size` returns
  abbrev pub create_sized : Outcome ℕ → String → String → F → F × Outcome P
  create_sized (returns size) path layout f = create_or_fail path size layout f
  create_sized (throws e) path layout f = (f, throws e)

  -- the pool that was opened, or a new one
  abbrev pub open_else_create : PoolResult P → Outcome ℕ → String → String → F → F × Outcome P
  open_else_create (opened p) size path layout f = (f, returns p)
  open_else_create (pool_invalid_argument what) size path layout f = create_sized size path layout f
  open_else_create (failed e) size path layout f = (f, throws e)

  -- The branches on the two flags.
  unfoldable pub open_or_create : Config → String → String → ℕ × ℕ → F → F × Outcome P
  unfolding create_or_fail get_size
  open_or_create cfg path layout (missing, exists) f =
      if not (missing == 0) && not (exists == 0)
      then (
        f,
        throw_invalid_argument
            "Both flags set in config: \"create_if_missing\" and \"create_or_error_if_exists\"",
      )
      else if not (exists == 0)
      then create_sized (get_size cfg) path layout f
      else if not (missing == 0)
      then open_else_create (pools.open_pool path layout f) (get_size cfg) path layout f
      else (f, caught (pools.open_pool path layout f))

  abbrev pub by_path : F × Outcome P → F × Outcome (Opened P)
  by_path (f, r) = (
    f,
    r >>= λ p. returns (record { pmpool = p; root_oid = pools.root_of p; cfg_by_path = true }),
  )

  abbrev pub with_flags : Outcome (ℕ × ℕ) → Config → String → String → F → F × Outcome (Opened P)
  with_flags (returns fl) cfg path layout f = by_path (open_or_create cfg path layout fl f)
  with_flags (throws e) cfg path layout f = (f, throws e)

  -- The branches on the items "path" and "oid".
  abbrev pub open_at :
      Outcome (Option String × Option ℕ) → Config → String → F → F × Outcome (Opened P)
  open_at (returns (some path, some oid)) cfg layout f =
      (f, throw_invalid_argument "Config contains both: \"path\" and \"oid\"")
  open_at (returns (none, none)) cfg layout f =
      (f, throw_invalid_argument "Config does not contain item with key: \"path\" or \"oid\"")
  open_at (returns (some path, none)) cfg layout f = with_flags (flags cfg) cfg path layout f
  open_at (returns (none, some oid)) cfg layout f =
      (f, returns (record { pmpool = pools.pool_by_ptr oid; root_oid = oid; cfg_by_path = false }))
  open_at (throws e) cfg layout f = (f, throws e)

  unfoldable pub pmemobj_engine_base : Config → String → F → F × Outcome (Opened P)
  unfolding place_items flags open_or_create
  pmemobj_engine_base cfg layout f = open_at (place_items cfg) cfg layout f

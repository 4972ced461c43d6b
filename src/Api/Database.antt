-- ===== src/Api/Database.antt =====
-- src/libpmemkv.cc: the functions on a database handle, but for `pmemkv_get_copy`.
use Prim.Native.String.{String}
use pmemkv.Api.{call, catch_and_return_status}
use pmemkv.Base.{ℕ, Option, none, some, Bytes}
use pmemkv.Config.{Config}
use pmemkv.Engine.{Engine, KvCallback, ValueCallback, Double}
use pmemkv.Engine.Factory.{Factories, create_engine}
use pmemkv.Status.{Status, ok, invalid_argument, Errors, returns, throws}

-- The engine object that comes through `*db`; with `db` itself null there is no place for it.
unfoldable pub pmemkv_open :
    {E : Type 0}
    → Factories E
    → String
    → Option Config
    → Option (Option E)
    → Errors
    → Option (Option E) × Errors × Status
unfolding catch_and_return_status create_engine
pmemkv_open factories engine config none e = (none, e, invalid_argument)
pmemkv_open factories engine config (some old) e = elim (create_engine engine config factories) [
  | returns made ↦
      let (e', status) = catch_and_return_status "pmemkv_open" (returns ok) e in
      (some (some made), e', status)
  | throws t ↦
      let (e', status) = catch_and_return_status "pmemkv_open" (throws t) e in
      (some old, e', status)
]

module _ {S Tx Iter : Type 0} (engine : Engine S Tx Iter) where
  abbrev Result : Type 0 → Type 0
  Result O = Option S × O × Errors × Status

  unfoldable pub pmemkv_count_all : Option S → ℕ → Errors → Result ℕ
  unfolding call
  pmemkv_count_all db cnt e = call "pmemkv_count_all" engine.count_all db cnt e

  unfoldable pub pmemkv_count_above : Bytes → Option S → ℕ → Errors → Result ℕ
  unfolding call
  pmemkv_count_above k db cnt e = call "pmemkv_count_above" (engine.count_above k) db cnt e

  unfoldable pub pmemkv_count_equal_above : Bytes → Option S → ℕ → Errors → Result ℕ
  unfolding call
  pmemkv_count_equal_above k db cnt e =
      call "pmemkv_count_equal_above" (engine.count_equal_above k) db cnt e

  unfoldable pub pmemkv_count_equal_below : Bytes → Option S → ℕ → Errors → Result ℕ
  unfolding call
  pmemkv_count_equal_below k db cnt e =
      call "pmemkv_count_equal_below" (engine.count_equal_below k) db cnt e

  unfoldable pub pmemkv_count_below : Bytes → Option S → ℕ → Errors → Result ℕ
  unfolding call
  pmemkv_count_below k db cnt e = call "pmemkv_count_below" (engine.count_below k) db cnt e

  unfoldable pub pmemkv_count_between : Bytes → Bytes → Option S → ℕ → Errors → Result ℕ
  unfolding call
  pmemkv_count_between k1 k2 db cnt e =
      call "pmemkv_count_between" (engine.count_between k1 k2) db cnt e

  unfoldable pub pmemkv_get_all : {A : Type 0} → KvCallback A → Option S → A → Errors → Result A
  unfolding call
  pmemkv_get_all {A} c db arg e = call "pmemkv_get_all" (engine.get_all A c) db arg e

  unfoldable pub pmemkv_get_above :
      {A : Type 0} → Bytes → KvCallback A → Option S → A → Errors → Result A
  unfolding call
  pmemkv_get_above {A} k c db arg e = call "pmemkv_get_above" (engine.get_above A k c) db arg e

  unfoldable pub pmemkv_get_equal_above :
      {A : Type 0} → Bytes → KvCallback A → Option S → A → Errors → Result A
  unfolding call
  pmemkv_get_equal_above {A} k c db arg e =
      call "pmemkv_get_equal_above" (engine.get_equal_above A k c) db arg e

  unfoldable pub pmemkv_get_equal_below :
      {A : Type 0} → Bytes → KvCallback A → Option S → A → Errors → Result A
  unfolding call
  pmemkv_get_equal_below {A} k c db arg e =
      call "pmemkv_get_equal_below" (engine.get_equal_below A k c) db arg e

  unfoldable pub pmemkv_get_below :
      {A : Type 0} → Bytes → KvCallback A → Option S → A → Errors → Result A
  unfolding call
  pmemkv_get_below {A} k c db arg e = call "pmemkv_get_below" (engine.get_below A k c) db arg e

  unfoldable pub pmemkv_get_between :
      {A : Type 0} → Bytes → Bytes → KvCallback A → Option S → A → Errors → Result A
  unfolding call
  pmemkv_get_between {A} k1 k2 c db arg e =
      call "pmemkv_get_between" (engine.get_between A k1 k2 c) db arg e

  unfoldable pub pmemkv_get :
      {A : Type 0} → Bytes → ValueCallback A → Option S → A → Errors → Result A
  unfolding call
  pmemkv_get {A} k c db arg e = call "pmemkv_get" (engine.get A k c) db arg e

  unfoldable pub pmemkv_exists : Bytes → Option S → Errors → Result Unit
  unfolding call
  pmemkv_exists k db e = call "pmemkv_exists" (engine.exists k) db tt e

  unfoldable pub pmemkv_put : Bytes → Bytes → Option S → Errors → Result Unit
  unfolding call
  pmemkv_put k v db e = call "pmemkv_put" (engine.put k v) db tt e

  unfoldable pub pmemkv_remove : Bytes → Option S → Errors → Result Unit
  unfolding call
  pmemkv_remove k db e = call "pmemkv_remove" (engine.remove k) db tt e

  unfoldable pub pmemkv_defrag : Double → Double → Option S → Errors → Result Unit
  unfolding call
  pmemkv_defrag start_percent amount_percent db e =
      call "pmemkv_defrag" (engine.defrag start_percent amount_percent) db tt e

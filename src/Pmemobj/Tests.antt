-- ===== src/Pmemobj/Tests.antt =====
-- Pools where one file holds one pool or nothing.
use pmemkv.Base.{ℕ, ◌≡◌, ◌≢◌, ◌⊎◌, refl, Bool, true, false, [], ◌∷◌, none, some}
use pmemkv.Config.{
  Config, get_string, get_object, get_uint64, get_checked_item, item_type, string_v, uint64,
}
use pmemkv.Pmemobj.{
  PoolResult, opened, pool_invalid_argument, failed, Pools, Opened, place_items, flags,
  pmemobj_engine_base,
}
use pmemkv.Pmemobj.Existing.{KeepsExisting, pmemobj_engine_base-existing}
use pmemkv.Status.{returns, std_exception}

abbrev open_file : Bool → PoolResult ℕ
open_file true = opened 7
open_file false = pool_invalid_argument "no pool"

abbrev make_file : Bool → Bool × PoolResult ℕ
make_file true = (true, failed (std_exception "file exists"))
make_file false = (true, opened 7)

abbrev one_file : Pools Bool ℕ
one_file = record {
  open_pool = λ path layout f. open_file f;
  create_pool = λ path layout size f. make_file f;
  root_of = λ p. 100;
  pool_by_ptr = λ oid. 7;
}

keeps_files : (f : Bool) (p : ℕ) → open_file f ≡ opened p → ((make_file f).0 ≡ f)
keeps_files true p h = refl
keeps_files false p h = cc

keeps_failing : (f : Bool) (p p' : ℕ) → open_file f ≡ opened p → (make_file f).1 ≢ opened p'
keeps_failing true p p' h e = cc
keeps_failing false p p' h e = cc

one_file-KeepsExisting : KeepsExisting one_file
one_file-KeepsExisting = record {
  files = λ path layout size f p h. keeps_files f p h;
  fails = λ path layout size f p p' h. keeps_failing f p p' h;
}

abbrev forced : Config
forced = ("path", string_v "pool") ∷ ("force_create", uint64 1) ∷ []

forced_items : place_items forced ≡ returns (some "pool", none)
unfolding place_items get_string get_object get_checked_item item_type
forced_items = refl

read_forced : flags forced ≡ returns (0, 1)
unfolding flags get_uint64
read_forced = refl

pmemobj_engine_base-existing_example :
    let r = pmemobj_engine_base one_file forced "pmemkv_csmap" true in
    let exists : ℕ = 1 in
    ((exists ≡ 0)
      × (r ≡ (true, returns (record { pmpool = 7; root_oid = 100; cfg_by_path = true }))))
    ⊎ ((exists ≢ 0) × (r.0 ≡ true) × ((o : Opened ℕ) → r.1 ≢ returns o))
pmemobj_engine_base-existing_example =
    pmemobj_engine_base-existing one_file one_file-KeepsExisting "pool" "pmemkv_csmap" true 7 refl
      forced 0 1 forced_items read_forced

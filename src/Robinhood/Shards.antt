-- ===== src/Robinhood/Shards.antt =====
-- src/engines-experimental/robinhood.cc: the engine, which spreads its keys over an array of tables.
-- A method holds its shard's lock from the first to the last access, so it is one step. `in_tx`
-- says whether the calling thread is inside a libpmemobj transaction; `none` is a lookup that does
-- not end.
use pmemkv.Base.{
  ℕ, ◌+◌, ◌%◌, Bool, true, false, List, [], ◌∷◌, Option, none, some, Bytes, length, get_or, set,
  replicate, not, ◌||◌, ◌==◌, if◌then◌else◌,
}
use pmemkv.Hash.{fast_hash, load_le}
use pmemkv.Robinhood.{Hashmap, entry_size}
use pmemkv.Robinhood.Lookup.{hm_rp_get, hm_rp_lookup, hm_rp_count, hm_rp_foreach}
use pmemkv.Robinhood.Resize.{hashmap_create, hm_rp_insert, hm_rp_remove}
use pmemkv.Status.{
  Status, ok, not_found, invalid_argument, unknown_error, stopped_by_cb, Outcome, returns, throws,
  scope_error, throw_invalid_argument,
}

-- `shards_number` and `container`, the array of the shards' tables.
pub record Robinhood : Type 0 where
  pub shards_number : ℕ
  pub container : List Hashmap

abbrev shard_at : (ℕ → ℕ) → List Hashmap → ℕ → Hashmap
shard_at load_factor container i = get_or container i (hashmap_create load_factor)

-- `Recover` on a new pool
unfoldable pub recover_new : ℕ → (ℕ → ℕ) → Robinhood
unfolding hashmap_create
recover_new shards_number load_factor = record {
  shards_number = shards_number;
  container = replicate shards_number (hashmap_create load_factor);
}

-- `Recover` on a pool with a root object: the number of shards must be the stored one. (The text
-- of the exception goes on with the two numbers.)
unfoldable pub recover_existing : ℕ → Robinhood → Outcome Robinhood
recover_existing shards_number stored =
    if shards_number == stored.shards_number
    then returns stored
    else throw_invalid_argument "Wrong number of shards set"

-- the masks of a number of shards that is a power of two; `key_bytes` are the bytes of the key
unfoldable pub shard_hash : ℕ → Bytes → ℕ
unfolding fast_hash
shard_hash shards_number key_bytes = fast_hash key_bytes % shards_number

-- `pmemobj_engine.h`: the check at the start of every method
unfoldable pub check_outside_tx : {A : Type 0} → Bool → A → Outcome A
check_outside_tx true a = throws (scope_error "Function called inside transaction scope.")
check_outside_tx false a = returns a

sum_counts : List Hashmap → ℕ
unfolding hm_rp_count
sum_counts [] = 0
sum_counts (m ∷ ms) = hm_rp_count m + sum_counts ms

unfoldable pub count_all : Bool → Robinhood → Outcome (ℕ × Status)
unfolding check_outside_tx sum_counts
count_all in_tx r = check_outside_tx in_tx (sum_counts r.container, ok)

-- the loop over the shards
get_all_shards : {A : Type 0} → List Hashmap → (ℕ → ℕ → A → ℕ × A) → A → A × Status
unfolding hm_rp_foreach
get_all_shards [] callback arg = (arg, ok)
get_all_shards (m ∷ ms) callback arg =
    let (ret, arg') = hm_rp_foreach m callback arg in
    let rest = get_all_shards ms callback arg' in if ret == 0 then rest else (arg', stopped_by_cb)

unfoldable pub get_all :
    {A : Type 0} → Bool → (ℕ → ℕ → A → ℕ × A) → Robinhood → A → Outcome (A × Status)
unfolding check_outside_tx get_all_shards
get_all in_tx callback r arg = check_outside_tx in_tx (get_all_shards r.container callback arg)

module _ (load_factor : ℕ → ℕ) (in_tx : Bool) where
  unfoldable pub exists : Bytes → Robinhood → Outcome (Option Status)
  unfolding check_outside_tx shard_hash
  exists key r =
      let shard = shard_hash r.shards_number key in
      let found = hm_rp_lookup (shard_at load_factor r.container shard) (load_le key) in
      check_outside_tx in_tx (
        if not (length key == entry_size)
        then some invalid_argument
        else (elim found [ none ↦ none | some present ↦ some (if present then ok else not_found) ]))

  unfoldable pub get :
      {A : Type 0} → Bytes → (ℕ → A → A) → Robinhood → A → Outcome (Option (A × Status))
  unfolding check_outside_tx shard_hash
  get key callback r arg =
      let shard = shard_hash r.shards_number key in
      let result = hm_rp_get (shard_at load_factor r.container shard) (load_le key) in
      check_outside_tx in_tx (
        if not (length key == entry_size) then some (arg, invalid_argument) else (elim result [
          | none ↦ none
          | some (value, found) ↦
              some (if found then (callback value arg, ok) else (arg, not_found))
        ]))

  unfoldable pub put : Bytes → Bytes → Robinhood → Outcome (Robinhood × Status)
  unfolding check_outside_tx shard_hash
  put key value r =
      let shard = shard_hash r.shards_number key in
      let (m, done) =
        hm_rp_insert (shard_at load_factor r.container shard) (load_le key) (load_le value) in
      let r' = record r { container = set r.container shard m } in
      check_outside_tx in_tx (
        if not (length key == entry_size) || not (length value == entry_size)
        then (r, invalid_argument)
        else (r', if done then ok else unknown_error))

  unfoldable pub remove : Bytes → Robinhood → Outcome (Option (Robinhood × Status))
  unfolding check_outside_tx shard_hash
  remove key r =
      let shard = shard_hash r.shards_number key in
      let result = hm_rp_remove (shard_at load_factor r.container shard) (load_le key) in
      check_outside_tx in_tx (
        if not (length key == entry_size) then some (r, invalid_argument) else (elim result [
          | none ↦ none
          | some (m, done) ↦
              some
                (record r { container = set r.container shard m }, if done then ok else not_found)
        ]))

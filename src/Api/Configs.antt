-- ===== src/Api/Configs.antt =====
-- src/libpmemkv.cc: the functions on a config handle.
use Prim.Native.String.{String}
use pmemkv.Api.{call}
use pmemkv.Base.{ℕ, Bool, true, false, Option, none, some, Bytes}
use pmemkv.Base.Int.{ℤ}
use pmemkv.Config.{
  Config, put_data, put_object, put_int64, put_uint64, put_string, get_data, get_object, get_int64,
  get_uint64, get_string, delete_config,
}
use pmemkv.Engine.{Method}
use pmemkv.Base.{List, []}
use pmemkv.Status.{Status, ok, not_found, invalid_argument, Errors, Outcome, returns, throws}

-- The body of a `put` function: the item is stored and the status is `ok`, or the exception.
abbrev pub storing : (Config → Outcome Config) → Method Config Unit
storing f c o = elim (f c) [ returns c' ↦ (c', o, returns ok) | throws t ↦ (c, o, throws t) ]

-- The body of a `get` function: the output argument is written only where an item was found.
abbrev pub reading : {V : Type 0} → (Config → Outcome (Option V)) → Method Config V
reading f c out = elim (f c) [
  | returns (some v) ↦ (c, v, returns ok)
  | returns none ↦ (c, out, returns not_found)
  | throws t ↦ (c, out, throws t)
]

abbrev pub Put : Type 0
Put = Option Config → Errors → Option Config × Unit × Errors × Status

abbrev pub Get : Type 0 → Type 0
Get V = Option Config → V → Errors → Option Config × V × Errors × Status

unfoldable pub pmemkv_config_new : Option Config
pmemkv_config_new = some []

-- the deleter calls of the destructor; `delete` of a null pointer does nothing
unfoldable pub pmemkv_config_delete : Option Config → List (ℕ × ℕ)
unfolding delete_config
pmemkv_config_delete none = []
pmemkv_config_delete (some c) = delete_config c

unfoldable pub pmemkv_config_put_data : String → Bytes → Put
unfolding call put_data
pmemkv_config_put_data key value c e =
    call "pmemkv_config_put_data" (storing (put_data key value)) c tt e

unfoldable pub pmemkv_config_put_object : String → ℕ → Option ℕ → Put
unfolding call put_object
pmemkv_config_put_object key value deleter c e =
    call "pmemkv_config_put_object" (storing (put_object key value deleter (λ arg. arg))) c tt e

unfoldable pub pmemkv_config_put_object_cb : String → ℕ → Option (ℕ → ℕ) → Option ℕ → Put
unfolding call put_object
pmemkv_config_put_object_cb key value none deleter c e = (c, tt, e, invalid_argument)
pmemkv_config_put_object_cb key value (some getter) deleter c e =
    call "pmemkv_config_put_object_cb" (storing (put_object key value deleter getter)) c tt e

unfoldable pub pmemkv_config_put_int64 : String → ℤ → Put
unfolding call put_int64
pmemkv_config_put_int64 key value c e =
    call "pmemkv_config_put_int64" (storing (put_int64 key value)) c tt e

unfoldable pub pmemkv_config_put_uint64 : String → ℕ → Put
unfolding call put_uint64
pmemkv_config_put_uint64 key value c e =
    call "pmemkv_config_put_uint64" (storing (put_uint64 key value)) c tt e

unfoldable pub pmemkv_config_put_string : String → String → Put
unfolding call put_string
pmemkv_config_put_string key value c e =
    call "pmemkv_config_put_string" (storing (put_string key value)) c tt e

unfoldable pub pmemkv_config_put_size : ℕ → Put
unfolding pmemkv_config_put_uint64
pmemkv_config_put_size = pmemkv_config_put_uint64 "size"

unfoldable pub pmemkv_config_put_path : String → Put
unfolding pmemkv_config_put_string
pmemkv_config_put_path = pmemkv_config_put_string "path"

-- `static_cast<std::uint64_t>` of a `bool`
abbrev of_bool : Bool → ℕ
of_bool true = 1
of_bool false = 0

unfoldable pub pmemkv_config_put_create_or_error_if_exists : Bool → Put
unfolding pmemkv_config_put_uint64
pmemkv_config_put_create_or_error_if_exists value =
    pmemkv_config_put_uint64 "create_or_error_if_exists" (of_bool value)

unfoldable pub pmemkv_config_put_force_create : Bool → Put
unfolding pmemkv_config_put_create_or_error_if_exists
pmemkv_config_put_force_create = pmemkv_config_put_create_or_error_if_exists

unfoldable pub pmemkv_config_put_create_if_missing : Bool → Put
unfolding pmemkv_config_put_uint64
pmemkv_config_put_create_if_missing value =
    pmemkv_config_put_uint64 "create_if_missing" (of_bool value)

-- `comparator_delete` is the address of `pmemkv_comparator_delete`.
unfoldable pub pmemkv_config_put_comparator : ℕ → ℕ → Put
unfolding pmemkv_config_put_object
pmemkv_config_put_comparator comparator_delete comparator =
    pmemkv_config_put_object "comparator" comparator (some comparator_delete)

unfoldable pub pmemkv_config_put_oid : ℕ → Put
unfolding pmemkv_config_put_object
pmemkv_config_put_oid oid = pmemkv_config_put_object "oid" oid none

unfoldable pub pmemkv_config_get_data : String → Get Bytes
unfolding call get_data
pmemkv_config_get_data key c value e =
    call "pmemkv_config_get_data" (reading (get_data key)) c value e

unfoldable pub pmemkv_config_get_object : String → Get ℕ
unfolding call get_object
pmemkv_config_get_object key c value e =
    call "pmemkv_config_get_object" (reading (get_object key)) c value e

unfoldable pub pmemkv_config_get_int64 : String → Get ℤ
unfolding call get_int64
pmemkv_config_get_int64 key c value e =
    call "pmemkv_config_get_int64" (reading (get_int64 key)) c value e

unfoldable pub pmemkv_config_get_uint64 : String → Get ℕ
unfolding call get_uint64
pmemkv_config_get_uint64 key c value e =
    call "pmemkv_config_get_uint64" (reading (get_uint64 key)) c value e

unfoldable pub pmemkv_config_get_string : String → Get String
unfolding call get_string
pmemkv_config_get_string key c value e =
    call "pmemkv_config_get_string" (reading (get_string key)) c value e

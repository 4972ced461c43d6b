-- ===== src/Status.antt =====
-- The status codes of src/libpmemkv.h, the exceptions of src/exceptions.h with those of the
-- standard library that the C functions tell apart, and the error message of src/out.cc.
use Prim.Native.String.{String, ◌++◌}
use pmemkv.Base.{ℕ}

-- `enum class status`; the C functions return the same values as `PMEMKV_STATUS_*`.
pub data Status : Type 0 where
  ok unknown_error not_found not_supported invalid_argument config_parsing_error : Status
  config_type_error stopped_by_cb out_of_memory wrong_engine_name : Status
  transaction_scope_error defrag_error comparator_mismatch : Status

pub status_code : Status → ℕ
status_code ok = 0
status_code unknown_error = 1
status_code not_found = 2
status_code not_supported = 3
status_code invalid_argument = 4
status_code config_parsing_error = 5
status_code config_type_error = 6
status_code stopped_by_cb = 7
status_code out_of_memory = 8
status_code wrong_engine_name = 9
status_code transaction_scope_error = 10
status_code defrag_error = 11
status_code comparator_mismatch = 12

-- What leaves a function by a C++ exception, each with the text of `what()`. `error` is
-- `internal::error` with its `status_code`; `scope_error` is `pmem::transaction_scope_error`.
pub data Thrown : Type 0 where
  error : String → Status → Thrown
  bad_alloc : String → Thrown
  runtime_error : String → Thrown
  std_invalid_argument : String → Thrown
  scope_error : String → Thrown
  std_exception : String → Thrown
  unspecified : Thrown

pub data Outcome {ℓ} (A : Type ℓ) : Type ℓ where
  returns : A → Outcome A
  throws : Thrown → Outcome A

infixl 5 ◌>>=◌
abbrev pub ◌>>=◌ {ℓ κ} : {A : Type ℓ} {B : Type κ} → Outcome A → (A → Outcome B) → Outcome B
returns a >>= f = f a
throws e >>= f = throws e

-- The classes of exceptions.h that derive from `internal::error`, thrown.
module _ {ℓ} {A : Type ℓ} where
  abbrev pub throw_not_supported : String → Outcome A
  throw_not_supported msg = throws (error msg not_supported)

  abbrev pub throw_invalid_argument : String → Outcome A
  throw_invalid_argument msg = throws (error msg invalid_argument)

  abbrev pub throw_config_type_error : String → Outcome A
  throw_config_type_error msg = throws (error msg config_type_error)

  abbrev pub throw_wrong_engine_name : String → Outcome A
  throw_wrong_engine_name msg = throws (error msg wrong_engine_name)

-- The thread-local variables of out.cc.
pub record Errors : Type 0 where
  pub error_stream : String
  pub last_status : Status

-- `out_err_stream(func) << what`
unfoldable pub out_err_stream : String → String → Errors → Errors
out_err_stream func what e = record e { error_stream = "[" ++ func ++ "] " ++ what }

unfoldable pub set_last_status : Status → Errors → Errors
set_last_status s e = record e { last_status = s }

unfoldable pub out_get_errormsg : Errors → String
out_get_errormsg e = elim e.last_status [ not_found ↦ "" | stopped_by_cb ↦ "" | _ ↦ e.error_stream ]

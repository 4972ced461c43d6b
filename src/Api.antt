-- ===== src/Api.antt =====
-- src/libpmemkv.cc: the C functions, over the engine that a handle points to. A null pointer is
-- `none`. What every function does around its call of the engine stands here.
pub mod Messages
pub mod Roundtrip
pub mod Configs
pub mod Database
pub mod Copy
pub mod Iterators
pub mod Transactions
mod Tests
use Prim.Native.String.{String}
use pmemkv.Base.{Option, none, some}
use pmemkv.Engine.{Method}
use pmemkv.Status.{
  Status, unknown_error, out_of_memory, invalid_argument, transaction_scope_error, Thrown, error,
  bad_alloc, runtime_error, std_invalid_argument, scope_error, std_exception, unspecified, Outcome,
  returns, throws, Errors, out_err_stream, set_last_status,
}

-- The status that each `catch` clause gives.
unfoldable pub caught_status : Thrown → Status
caught_status (error what status_code) = status_code
caught_status (bad_alloc what) = out_of_memory
caught_status (runtime_error what) = unknown_error
caught_status (std_invalid_argument what) = invalid_argument
caught_status (scope_error what) = transaction_scope_error
caught_status (std_exception what) = unknown_error
caught_status unspecified = unknown_error

-- The text that each `catch` clause writes.
unfoldable pub caught_text : Thrown → String
caught_text (error what status_code) = what
caught_text (bad_alloc what) = what
caught_text (runtime_error what) = what
caught_text (std_invalid_argument what) = what
caught_text (scope_error what) = what
caught_text (std_exception what) = what
caught_text unspecified = "Unspecified error"

unfoldable pub catch_and_return_status : String → Outcome Status → Errors → Errors × Status
unfolding caught_status caught_text out_err_stream set_last_status
catch_and_return_status func (returns status) e = (set_last_status status e, status)
catch_and_return_status func (throws t) e =
    (set_last_status (caught_status t) (out_err_stream func (caught_text t) e), caught_status t)

-- `if (!db) return PMEMKV_STATUS_INVALID_ARGUMENT;` and the guarded call on the object.
unfoldable pub call :
    {S O : Type 0} → String → Method S O → Option S → O → Errors → Option S × O × Errors × Status
unfolding catch_and_return_status
call func method none o e = (none, o, e, invalid_argument)
call func method (some s) o e =
    let (s', o', outcome) = method s o in
    let (e', status) = catch_and_return_status func outcome e in (some s', o', e', status)

-- ===== src/Api/Messages.antt =====
-- Proofs about src/libpmemkv.cc and src/out.cc: statuses and error messages.
use Prim.Native.String.{String, ◌++◌}
use pmemkv.Base.{◌≡◌}
use pmemkv.Status.{
  Status, unknown_error, not_found, invalid_argument, stopped_by_cb, out_of_memory,
  transaction_scope_error, error, bad_alloc, runtime_error, std_invalid_argument, scope_error,
  std_exception, unspecified, Outcome, returns, throws, Errors,
}

-- The two statuses that are no errors have no message.
abbrev pub told : Status → String → String
told not_found message = ""
told stopped_by_cb message = ""
told _ message = message

-- The status and the message of each outcome of an engine's method. Where the method returns, the
-- text is the one of the last exception.
abbrev pub IsReport : String → Errors → Outcome Status → Status → String → Type 0
IsReport func e (returns s) status message = (status ≡ s) × (message ≡ told s e.error_stream)
IsReport func e (throws (error what s)) status message =
    (status ≡ s) × (message ≡ told s ("[" ++ func ++ "] " ++ what))
IsReport func e (throws (bad_alloc what)) status message =
    (status ≡ out_of_memory) × (message ≡ "[" ++ func ++ "] " ++ what)
IsReport func e (throws (runtime_error what)) status message =
    (status ≡ unknown_error) × (message ≡ "[" ++ func ++ "] " ++ what)
IsReport func e (throws (std_invalid_argument what)) status message =
    (status ≡ invalid_argument) × (message ≡ "[" ++ func ++ "] " ++ what)
IsReport func e (throws (scope_error what)) status message =
    (status ≡ transaction_scope_error) × (message ≡ "[" ++ func ++ "] " ++ what)
IsReport func e (throws (std_exception what)) status message =
    (status ≡ unknown_error) × (message ≡ "[" ++ func ++ "] " ++ what)
IsReport func e (throws unspecified) status message =
    (status ≡ unknown_error) × (message ≡ "[" ++ func ++ "] " ++ "Unspecified error")

-- ===== src/Api/Copy.antt =====
-- src/libpmemkv.cc: `pmemkv_get_copy` with its callback.
use pmemkv.Api.{call}
use pmemkv.Base.{ℕ, Option, none, some, Bytes, ◌++◌, length, drop, replicate, leb, if◌then◌else◌}
use pmemkv.Engine.{Engine}
use pmemkv.Status.{Status, ok, not_found, out_of_memory, invalid_argument, Errors}

-- `buffer` and `value_size` are pointers that may be null, with what stands there.
pub record GetCopyCallbackContext : Type 0 where
  pub result : Status
  pub buffer_size : ℕ
  pub buffer : Option Bytes
  pub value_size : Option ℕ

-- a write through a pointer that is not null
abbrev pub write_to : {V : Type 0} → Option V → (V → V) → Option V
write_to none f = none
write_to (some v) f = some (f v)

unfoldable pub get_copy_callback : Bytes → GetCopyCallbackContext → GetCopyCallbackContext
get_copy_callback v c =
    let vb = length v in
    let size = write_to c.value_size (λ _. vb) in
    if leb vb c.buffer_size
    then record c {
      value_size = size;
      result = ok;
      buffer = write_to c.buffer (λ b. v ++ drop vb b);
    }
    else record c { value_size = size; result = out_of_memory }

-- The handle, the buffer and the size that the caller sees, and the status.
unfoldable pub pmemkv_get_copy :
    {S Tx Iter : Type 0}
    → Engine S Tx Iter
    → Option S
    → Bytes
    → Option Bytes
    → ℕ
    → Option ℕ
    → Errors
    → Option S × Option Bytes × Option ℕ × Errors × Status
unfolding call get_copy_callback
pmemkv_get_copy engine none k buffer buffer_size value_size e =
    (none, buffer, value_size, e, invalid_argument)
pmemkv_get_copy engine (some s) k buffer buffer_size value_size e =
    let ctx : GetCopyCallbackContext = record {
      result = not_found;
      buffer_size = buffer_size;
      buffer = write_to buffer (λ _. replicate buffer_size 0);
      value_size = value_size;
    } in
    let (db, ctx', e', ret) =
      call "pmemkv_get_copy" (engine.get GetCopyCallbackContext k get_copy_callback) (some s) ctx
        e in
    (db, ctx'.buffer, ctx'.value_size, e', (elim ret [ ok ↦ ctx'.result | other ↦ other ]))

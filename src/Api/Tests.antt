-- ===== src/Api/Tests.antt =====
-- Runs through the C functions, and the theorems at them.
use Prim.Native.String.{String}
use pmemkv.Api.Configs.{
  pmemkv_config_put_uint64, pmemkv_config_get_uint64, pmemkv_config_get_int64,
  pmemkv_config_get_string,
}
use pmemkv.Api.Copy.{pmemkv_get_copy}
use pmemkv.Api.Database.{pmemkv_put, pmemkv_remove}
use pmemkv.Api.Roundtrip.{config_get-put_uint64, get_copy-value_of, get_copy-put-remove}
use pmemkv.Base.{
  ℕ, ◌-◌, ◌^◌, ◌≡◌, refl, [], ◌∷◌, ◌++◌ as ◌+++◌, none, some, Bytes, length, replicate, leb,
  if◌then◌else◌, arith,
}
use pmemkv.Base.Int.{pos}
use pmemkv.Comparator.{binary_comparator}
use pmemkv.Comparator.Binary.{binary_comparator-order}
use pmemkv.Config.{Config, get, int64_max}
use pmemkv.Engine.{Method}
use pmemkv.Status.{
  ok, not_found, out_of_memory, config_type_error, defrag_error, scope_error, returns, throws,
  Errors,
}
use pmemkv.Vsmap.{Vsmap}
use pmemkv.Vsmap.Object.{vsmap_engine}
use pmemkv.Vsmap.Queries.{IsValid}
use pmemkv.Vsmap.Updates.{value_of}

abbrev calm : Errors
calm = record { error_stream = ""; last_status = ok }

abbrev one : Vsmap
one = record { compare = binary_comparator; container = (1 ∷ [], 10 ∷ 20 ∷ []) ∷ [] }

one-IsValid : IsValid one
one-IsValid = record { order = binary_comparator-order; sorted = (tt, tt) }

abbrev failing : Method ℕ ℕ
failing s o = (s, o, throws (scope_error "in a transaction"))

abbrev working : Method ℕ ℕ
working s o = (s, 7, returns defrag_error)

no_size : get "size" [] ≡ none
unfolding get
no_size = refl

get_copy-put-remove_example :
    let indeterminate : ℕ = 0 in
    let s = one in
    let k : Bytes = 2 ∷ [] in
    let val : Bytes = 7 ∷ 8 ∷ [] in
    let buffer : Bytes = 0 ∷ 0 ∷ 0 ∷ [] in
    let n : ℕ = 3 in
    let size : ℕ = 0 in
    let e = calm in
    let engine = vsmap_engine indeterminate in
    let stored = pmemkv_put engine k val (some s) e in
    let copied = pmemkv_get_copy engine stored.0 k (some buffer) n (some size) stored.2 in
    let removed = pmemkv_remove engine k stored.0 stored.2 in
    let missed = pmemkv_get_copy engine removed.0 k (some buffer) n (some size) removed.2 in
    (stored.3 ≡ ok)
    × (copied.4 ≡ ok)
    × (copied.1 ≡ some (val +++ replicate (n - length val) 0))
    × (copied.2 ≡ some (length val))
    × (removed.3 ≡ ok)
    × (missed.4 ≡ not_found)
get_copy-put-remove_example =
    get_copy-put-remove 0 one (2 ∷ []) (7 ∷ 8 ∷ []) (0 ∷ 0 ∷ 0 ∷ []) 3 0 calm one-IsValid
      (omega arith)

get_copy-value_of_example :
    let indeterminate : ℕ = 0 in
    let s = one in
    let k : Bytes = 1 ∷ [] in
    let buffer : Bytes = 0 ∷ [] in
    let n : ℕ = 1 in
    let size : ℕ = 0 in
    let e = calm in
    let r = pmemkv_get_copy (vsmap_engine indeterminate) (some s) k (some buffer) n (some size) e in
    (r.0 ≡ some s)
    × (r.1
        ≡ some (elim (value_of s k) [
          | none ↦ replicate n 0
          | some v ↦ if leb (length v) n then v +++ replicate (n - length v) 0 else replicate n 0
        ]))
    × (r.2 ≡ some (elim (value_of s k) [ none ↦ size | some v ↦ length v ]))
    × (r.4 ≡ (elim (value_of s k) [
      | none ↦ not_found
      | some v ↦ if leb (length v) n then ok else out_of_memory
    ]))
get_copy-value_of_example = get_copy-value_of 0 one (1 ∷ []) (0 ∷ []) 1 0 calm one-IsValid

config_get-put_uint64_example :
    let key : String = "size" in
    let text : String = "" in
    let n : ℕ = 2 ^ 63 in
    let out : ℕ = 0 in
    let i = pos 0 in
    let c : Config = [] in
    let e = calm in
    let e' = calm in
    let r = pmemkv_config_put_uint64 key n (some c) e in
    let as_unsigned = pmemkv_config_get_uint64 key r.0 out e' in
    let as_signed = pmemkv_config_get_int64 key r.0 i e' in
    let as_text = pmemkv_config_get_string key r.0 text e' in
    (r.3 ≡ ok)
    × (as_unsigned.3 ≡ ok)
    × (as_unsigned.1 ≡ n)
    × (as_signed.3 ≡ (if leb n int64_max then ok else config_type_error))
    × (as_signed.1 ≡ (if leb n int64_max then pos n else i))
    × (as_text.3 ≡ config_type_error)
    × (as_text.1 ≡ text)
config_get-put_uint64_example =
    config_get-put_uint64 "size" "" (2 ^ 63) 0 (pos 0) [] calm calm no_size

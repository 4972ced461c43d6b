-- ===== src/Api/Roundtrip.antt =====
-- Proofs about src/libpmemkv.cc: what is put through the C functions is what comes back.
use Prim.Native.String.{String}
use text.Mathlib.TextEquality.{eq_iff}
use native.Mathlib.Nat.{sub-zero, zero-sub}
use native.Mathlib.Nat.{suc-sub-suc}
use pmemkv.Api.{catch_and_return_status}
use pmemkv.Api.Configs.{
  pmemkv_config_put_uint64, pmemkv_config_get_uint64, pmemkv_config_get_int64,
  pmemkv_config_get_string,
}
use pmemkv.Api.Copy.{pmemkv_get_copy, get_copy_callback, GetCopyCallbackContext}
use pmemkv.Api.Database.{pmemkv_put, pmemkv_remove}
use pmemkv.Base.{
  ℕ, zero, suc, ◌-◌, ◌≡◌, ◌≤◌, ◌∙◌, ◌++◌, true, none, some, Bytes, length, drop, replicate, leb,
  if◌then◌else◌, arith, Option-cases, inl, inr,
}
use pmemkv.Base.Int.{ℤ, pos}
use pmemkv.Config.{Config, get, int64_max}
use pmemkv.Status.{ok, not_found, config_type_error, out_of_memory, Errors, returns}
use pmemkv.Vsmap
use pmemkv.Vsmap.{Vsmap, key_comp}
use pmemkv.Vsmap.Object.{vsmap_engine}
use pmemkv.Vsmap.Queries.{IsValid}
use pmemkv.Vsmap.Updates.{value_of, same_key, get-value_of, value_of-put, value_of-remove}

-- An unsigned number put under a free name into a config is read back by `get_uint64`; by
-- `get_int64` too if it is at most the greatest `int64_t`, and else with the status
-- `config_type_error`, as by `get_string`, and then the output is left as it was.
pub config_get-put_uint64 :
    (key text : String) (n out : ℕ) (i : ℤ) (c : Config) (e e' : Errors)
    → get key c ≡ none
    → let r = pmemkv_config_put_uint64 key n (some c) e in
      let as_unsigned = pmemkv_config_get_uint64 key r.0 out e' in
      let as_signed = pmemkv_config_get_int64 key r.0 i e' in
      let as_text = pmemkv_config_get_string key r.0 text e' in
      (r.3 ≡ ok)
      × (as_unsigned.3 ≡ ok)
      × (as_unsigned.1 ≡ n)
      × (as_signed.3 ≡ (if leb n int64_max then ok else config_type_error))
      × (as_signed.1 ≡ (if leb n int64_max then pos n else i))
      × (as_text.3 ≡ config_type_error)
      × (as_text.1 ≡ text)
unfolding pmemkv_config_put_uint64 pmemkv_config_get_uint64 pmemkv_config_get_int64
    pmemkv_config_get_string
config_get-put_uint64 key text n out i c e e' h = ground (arith, eq_iff key key)

drop-replicate : (k n : ℕ) → drop k (replicate {A = ℕ} n 0) ≡ replicate (n - k) 0
drop-replicate zero n = rw sub-zero
drop-replicate (suc k) zero = rw zero-sub
drop-replicate (suc k) (suc n) = rw suc-sub-suc (drop-replicate k n)

-- `pmemkv_get_copy` on a valid vsmap leaves it as it is. Where the key has a value, the size of
-- the value is reported; if it fits, the buffer gets it with zeros behind it and the status is
-- `ok`, else the buffer is all zeros and the status is `out_of_memory`. Where the key has none, the
-- status is `not_found`, the buffer is all zeros and no size is reported.
pub get_copy-value_of :
    (indeterminate : ℕ) (s : Vsmap) (k buffer : Bytes) (n size : ℕ) (e : Errors)
    → IsValid s
    → let r =
        pmemkv_get_copy (vsmap_engine indeterminate) (some s) k (some buffer) n (some size) e in
      (r.0 ≡ some s)
      × (r.1
          ≡ some (elim (value_of s k) [
            | none ↦ replicate n 0
            | some v ↦ if leb (length v) n then v ++ replicate (n - length v) 0 else replicate n 0
          ]))
      × (r.2 ≡ some (elim (value_of s k) [ none ↦ size | some v ↦ length v ]))
      × (r.4 ≡ (elim (value_of s k) [
        | none ↦ not_found
        | some v ↦ if leb (length v) n then ok else out_of_memory
      ]))
unfolding pmemkv_get_copy vsmap_engine
get_copy-value_of indeterminate s k buffer n size e v =
    let ctx : GetCopyCallbackContext = record {
      result = not_found;
      buffer_size = n;
      buffer = some (replicate n 0);
      value_size = some size;
    } in
    elim (Option-cases (value_of s k)) [
      | inl h ↦ ground (arith, (get-value_of s k get_copy_callback ctx v).0)
      | inr (val, h) ↦
          ground
            (arith, (get-value_of s k get_copy_callback ctx v).0, drop-replicate (length val) n)
    ]

same_key_refl : (s : Vsmap) → IsValid s → (k : Bytes) → same_key s k k ≡ true
same_key_refl s v k = ground (arith, v.order.less_irrefl k)

module _ (indeterminate : ℕ) (s : Vsmap) (k buffer : Bytes) (n size : ℕ) (e : Errors)
    (v : IsValid s) where
  copy_hit :
      {val : Bytes}
      → value_of s k ≡ some val
      → length val ≤ n
      → let r =
          pmemkv_get_copy (vsmap_engine indeterminate) (some s) k (some buffer) n (some size) e in
        (r.4 ≡ ok) × (r.1 ≡ some (val ++ replicate (n - length val) 0)) × (r.2 ≡ some (length val))
  copy_hit h fits =
      let c = get_copy-value_of indeterminate s k buffer n size e v in
      (c.3 ∙ rw h (ground arith), c.1 ∙ rw h (ground arith), c.2 ∙ rw h)

  copy_miss :
      value_of s k ≡ none
      → (pmemkv_get_copy (vsmap_engine indeterminate) (some s) k (some buffer) n (some size) e).4
        ≡ not_found
  copy_miss h = (get_copy-value_of indeterminate s k buffer n size e v).3 ∙ rw h

-- Through the C functions on a valid vsmap: a value that is put and fits the buffer is what
-- `pmemkv_get_copy` gives for its key, with zeros behind it; and after `pmemkv_remove` of the key,
-- which returns `ok`, the status is `not_found`.
pub get_copy-put-remove :
    (indeterminate : ℕ) (s : Vsmap) (k val buffer : Bytes) (n size : ℕ) (e : Errors)
    → IsValid s
    → length val ≤ n
    → let engine = vsmap_engine indeterminate in
      let stored = pmemkv_put engine k val (some s) e in
      let copied = pmemkv_get_copy engine stored.0 k (some buffer) n (some size) stored.2 in
      let removed = pmemkv_remove engine k stored.0 stored.2 in
      let missed = pmemkv_get_copy engine removed.0 k (some buffer) n (some size) removed.2 in
      (stored.3 ≡ ok)
      × (copied.4 ≡ ok)
      × (copied.1 ≡ some (val ++ replicate (n - length val) 0))
      × (copied.2 ≡ some (length val))
      × (removed.3 ≡ ok)
      × (missed.4 ≡ not_found)
unfolding pmemkv_put pmemkv_remove vsmap_engine catch_and_return_status
get_copy-put-remove indeterminate s k val buffer n size e v fits =
    let put_facts = value_of-put s k val k v in
    let s1 = (Vsmap.put k val s tt).0 in
    let remove_facts = value_of-remove s1 k k put_facts.1 in
    let s2 = (Vsmap.remove k s1 tt).0 in
    let found : value_of s1 k ≡ some val = put_facts.2 ∙ rw (same_key_refl s v k) in
    let gone : value_of s2 k ≡ none = remove_facts.2 ∙ rw (same_key_refl s1 put_facts.1 k) in
    let copy = copy_hit indeterminate s1 k buffer n size _ put_facts.1 found fits in
    let status : (Vsmap.remove k s1 tt).2 ≡ returns ok = remove_facts.0 ∙ rw found in
    (
      rw put_facts.0,
      copy.0,
      copy.1,
      copy.2,
      rw status,
      copy_miss indeterminate s2 k buffer n size _ remove_facts.1 gone,
    )

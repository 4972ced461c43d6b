-- ===== src/Config/Convert.antt =====
-- Proofs about src/config.h: the integer items and their conversions.
use Prim.Native.String.{String}
use pmemkv.Base.{◌≡◌, ◌<◌, ◌^◌, ◌↔◌, ◌⊎◌, some, arith, ℕ}
use pmemkv.Base.Int.{pos}
use pmemkv.Status.{returns}
use pmemkv.Config.{Config, sint64, uint64, get, get_int64, get_uint64}

-- An unsigned number is read by `get_int64` exactly where an item holds it as `int64_t`, or as
-- `uint64_t` below 2^63; by `get_uint64` exactly where an item holds it as either.
pub get_int-convert :
    (key : String) (c : Config) (n : ℕ)
    → ((get_int64 key c ≡ returns (some (pos n)))
        ↔ ((get key c ≡ some (sint64 (pos n))) ⊎ ((get key c ≡ some (uint64 n)) × (n < 2 ^ 63))))
      × ((get_uint64 key c ≡ returns (some n))
          ↔ ((get key c ≡ some (sint64 (pos n))) ⊎ (get key c ≡ some (uint64 n))))
unfolding get_int64 get_uint64
get_int-convert key c n = ground arith

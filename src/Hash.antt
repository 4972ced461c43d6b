-- ===== src/Hash.antt =====
-- src/fast_hash.cc, over 64-bit words. A load of eight bytes is little-endian.
use Prim.Native.Nat.{bit_xor}
use pmemkv.Base.{
  ℕ, zero, suc, ◌+◌, ◌*◌, ◌/◌, ◌%◌, ◌^◌, [], ◌∷◌, Bytes, length, take, drop, ◌==◌, if◌then◌else◌,
}

abbrev pub word_mod : ℕ
word_mod = 2 ^ 64

unfoldable pub mix : ℕ → ℕ
mix h =
    let h1 = bit_xor h (h / 2 ^ 23) in
    let h2 = (h1 * 0x2127599bf4325c37) % word_mod in bit_xor h2 (h2 / 2 ^ 47)

-- the number that the bytes spell, the lowest first
unfoldable pub load_le : Bytes → ℕ
load_le [] = 0
load_le (b ∷ bs) = b + 256 * load_le bs

abbrev multiplier : ℕ
multiplier = 0x880355f21e6d1965

-- one round, `h = (h ^ mix(v)) * m`
hash_round : ℕ → ℕ → ℕ
unfolding mix
hash_round h v = (bit_xor h (mix v) * multiplier) % word_mod

-- the `while` loop over the whole words
hash_words : ℕ → ℕ → Bytes → ℕ
unfolding hash_round load_le
hash_words zero h bytes = h
hash_words (suc n) h bytes = hash_words n (hash_round h (load_le (take 8 bytes))) (drop 8 bytes)

-- The bytes behind the last whole word are loaded with the mask for their number.
unfoldable pub fast_hash : Bytes → ℕ
unfolding hash_words hash_round mix load_le
fast_hash key =
    let key_size = length key in
    let words = key_size / 8 in
    let h = hash_words words ((key_size * multiplier) % word_mod) key in
    let tail = hash_round h (load_le (drop (8 * words) key)) in
    mix (if key_size % 8 == 0 then h else tail)

-- ===== src/Robinhood.antt =====
-- src/engines-experimental/robinhood.h and robinhood.cc: the hash table with robin-hood probing and
-- tombstones. The capacity is a power of two, so `x & (capacity - 1)` is `x % capacity`.
pub mod Insert
pub mod Lookup
pub mod Resize
pub mod Bounds
pub mod Ending
pub mod Traversal
pub mod Count
pub mod Publish
pub mod Tally
pub mod Rebuild
pub mod Remove
pub mod Growth
pub mod Shards
mod Tests
use Prim.Native.Nat.{bit_xor}
use pmemkv.Base.{
  ℕ, ◌+◌, ◌-◌, ◌*◌, ◌/◌, ◌%◌, ◌^◌, Bool, true, false, ◌||◌, List, [], length, get_or, leb, ◌==◌,
  if◌then◌else◌,
}

-- `struct entry`
pub record Entry : Type 0 where
  pub key : ℕ
  pub value : ℕ
  pub hash : ℕ

abbrev pub zero_entry : Entry
zero_entry = record { key = 0; value = 0; hash = 0 }

-- `struct hashmap_rp`. `load_factor n` is `static_cast<uint64_t>(n * load_factor)`: the product
-- with the float, cut to a whole number.
pub record Hashmap : Type 0 where
  pub count : ℕ
  pub capacity : ℕ
  pub resize_threshold : ℕ
  pub load_factor : ℕ → ℕ
  pub entries : List Entry

abbrev pub init_entries_num : ℕ
init_entries_num = 16

abbrev pub max_swaps : ℕ
max_swaps = 150

abbrev pub entry_size : ℕ
entry_size = 8

abbrev pub tombstone_mask : ℕ
tombstone_mask = 2 ^ 63

abbrev pub word_mod : ℕ
word_mod = 2 ^ 64

-- the highest bit of the word
unfoldable pub entry_is_deleted : ℕ → Bool
entry_is_deleted hash = leb tombstone_mask hash

unfoldable pub entry_is_empty : ℕ → Bool
unfolding entry_is_deleted
entry_is_empty hash = hash == 0 || entry_is_deleted hash

unfoldable pub increment_pos : ℕ → ℕ → ℕ
increment_pos capacity pos =
    let next = ((pos + 1) % word_mod) % capacity in if next == 0 then 1 else next

unfoldable pub probe_distance : ℕ → ℕ → ℕ → ℕ
probe_distance capacity hash_key slot_index =
    ((slot_index + capacity + word_mod - hash_key) % word_mod) % capacity

xor_shift_33 : ℕ → ℕ
xor_shift_33 key = bit_xor key (key / 2 ^ 33)

-- the steps that mix the key, before the masks
unfoldable pub mix_key : ℕ → ℕ
unfolding xor_shift_33
mix_key key =
    let k1 = (xor_shift_33 key * 0xff51afd7ed558ccd) % word_mod in
    let k2 = (xor_shift_33 k1 * 0xc4ceb9fe1a85ec53) % word_mod in xor_shift_33 k2

unfoldable pub hash : ℕ → ℕ → ℕ
unfolding mix_key
hash capacity key = let k = (mix_key key % capacity) % tombstone_mask in if k == 0 then 1 else k

-- `entries[pos]`
abbrev pub entry_at : List Entry → ℕ → Entry
entry_at entries pos = get_or entries pos zero_entry

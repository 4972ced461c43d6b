-- ===== src/Config.antt =====
-- src/config.h: the class `internal::config`, a map from names to typed items, with the checks and
-- conversions of its getters. A pointer is a number; a getter is a function on pointers, and a
-- deleter the name of the function that is called.
pub mod Items
pub mod Convert
mod Tests
use Prim.Native.String.{String, ◌++◌}
use text.Mathlib.Text.{◌==◌ as str_eq}
use pmemkv.Base.{
  ℕ, ◌^◌, ◌-◌, Bool, true, false, List, [], ◌∷◌, Option, none, some, Bytes, leb, if◌then◌else◌,
}
use pmemkv.Base.Int.{ℤ, pos, negsuc, is_negative}
use pmemkv.Status.{
  Outcome, returns, throws, error, unknown_error, ◌>>=◌, throw_config_type_error,
  throw_invalid_argument,
}

-- `enum class type`
pub data ItemType : Type 0 where
  string_type int64_type uint64_type data_type object_type : ItemType

-- `struct variant`: the union with its tag.
pub data Variant : Type 0 where
  sint64 : ℤ → Variant
  uint64 : ℕ → Variant
  string_v : String → Variant
  data_v : Bytes → Variant
  object : ℕ → Option ℕ → (ℕ → ℕ) → Variant

unfoldable pub item_type : Variant → ItemType
item_type (sint64 v) = int64_type
item_type (uint64 v) = uint64_type
item_type (string_v v) = string_type
item_type (data_v v) = data_type
item_type (object p d g) = object_type

unfoldable pub type_name : ItemType → String
type_name string_type = "string"
type_name int64_type = "int64"
type_name uint64_type = "uint64"
type_name data_type = "data"
type_name object_type = "object"

-- `operator==` on the tag
abbrev pub same_type : ItemType → ItemType → Bool
same_type string_type string_type = true
same_type int64_type int64_type = true
same_type uint64_type uint64_type = true
same_type data_type data_type = true
same_type object_type object_type = true
same_type _ _ = false

-- `std::unordered_map<std::string, variant> umap`
abbrev pub Config : Type 0
Config = List (String × Variant)

-- `get`: `umap.find`
unfoldable pub get : String → Config → Option Variant
get key [] = none
get key ((k, v) ∷ c) = if str_eq k key then some v else get key c

-- `umap.emplace`, and the exception where the name is taken
unfoldable pub put : String → Variant → Config → Outcome Config
put key v c = elim (get key c) [
  | none ↦ returns ((key, v) ∷ c)
  | some _ ↦ throws (error ("Item with key: " ++ key ++ " already exists") unknown_error)
]

unfoldable pub put_data : String → Bytes → Config → Outcome Config
unfolding put
put_data key value = put key (data_v value)

unfoldable pub put_object : String → ℕ → Option ℕ → (ℕ → ℕ) → Config → Outcome Config
unfolding put
put_object key value deleter getter = put key (object value deleter getter)

unfoldable pub put_int64 : String → ℤ → Config → Outcome Config
unfolding put
put_int64 key value = put key (sint64 value)

unfoldable pub put_uint64 : String → ℕ → Config → Outcome Config
unfolding put
put_uint64 key value = put key (uint64 value)

unfoldable pub put_string : String → String → Config → Outcome Config
unfolding put
put_string key value = put key (string_v value)

unfoldable pub throw_type_error {ℓ} : {A : Type ℓ} → String → ItemType → ItemType → Outcome A
unfolding type_name
throw_type_error key item expected =
    throw_config_type_error
      ("Item with key: " ++ key ++ " is " ++ type_name item ++ ". Expected: " ++ type_name expected)

unfoldable pub get_checked_item : String → ItemType → Config → Outcome (Option Variant)
unfolding get item_type throw_type_error
get_checked_item key expected c = elim (get key c) [
  | none ↦ returns none
  | some item ↦
      if same_type (item_type item) expected
      then returns (some item)
      else throw_type_error key (item_type item) expected
]

-- The getters return the value in place of the `bool` and the output argument. They read the union
-- without a test of its tag, which is the one that `get_checked_item` has tested.
unfoldable pub data_of : Option Variant → Option Bytes
data_of (some (data_v v)) = some v
data_of _ = none

unfoldable pub string_of : Option Variant → Option String
string_of (some (string_v v)) = some v
string_of _ = none

-- `(*item->object.getter)(item->object.ptr)`
object_of : Option Variant → Option ℕ
object_of (some (object p d g)) = some (g p)
object_of _ = none

unfoldable pub get_data : String → Config → Outcome (Option Bytes)
unfolding get_checked_item data_of
get_data key c = do item ← get_checked_item key data_type c; returns (data_of item)

unfoldable pub get_object : String → Config → Outcome (Option ℕ)
unfolding get_checked_item object_of
get_object key c = do item ← get_checked_item key object_type c; returns (object_of item)

unfoldable pub get_string : String → Config → Outcome (Option String)
unfolding get_checked_item string_of
get_string key c = do item ← get_checked_item key string_type c; returns (string_of item)

-- `std::numeric_limits<int64_t>::max()`
abbrev pub int64_max : ℕ
int64_max = 2 ^ 63 - 1

to_int64 : String → Variant → Outcome (Option ℤ)
unfolding item_type throw_type_error
to_int64 key (sint64 v) = returns (some v)
to_int64 key (uint64 v) =
    if leb v int64_max
    then returns (some (pos v))
    else throw_config_type_error
        ("Item with key: " ++ key ++ " has value which exceeds int64 range")
to_int64 key item = throw_type_error key (item_type item) int64_type

unfoldable pub get_int64 : String → Config → Outcome (Option ℤ)
unfolding get to_int64
get_int64 key c = elim (get key c) [ none ↦ returns none | some item ↦ to_int64 key item ]

to_uint64 : String → Variant → Outcome (Option ℕ)
unfolding item_type throw_type_error
to_uint64 key (uint64 v) = returns (some v)
to_uint64 key (sint64 (pos v)) = returns (some v)
to_uint64 key (sint64 (negsuc v)) = throw_config_type_error ("Item with key: " ++ key ++ " is < 0")
to_uint64 key item = throw_type_error key (item_type item) uint64_type

unfoldable pub get_uint64 : String → Config → Outcome (Option ℕ)
unfolding get to_uint64
get_uint64 key c = elim (get key c) [ none ↦ returns none | some item ↦ to_uint64 key item ]

unfoldable pub get_path : Config → Outcome String
unfolding get_string
get_path c = do
  path ← get_string "path" c
  elim path [
    | none ↦ throw_invalid_argument "Config does not contain item with key: \"path\""
    | some p ↦ returns p
  ]

unfoldable pub get_size : Config → Outcome ℕ
unfolding get_uint64
get_size c = do
  size ← get_uint64 "size" c
  elim size [
    | none ↦ throw_invalid_argument "Config does not contain item with key: \"size\""
    | some n ↦ returns n
  ]

-- The destructor: the calls `deleter(ptr)` of the items that hold an object with a deleter.
unfoldable pub delete_config : Config → List (ℕ × ℕ)
delete_config [] = []
delete_config ((k, object p (some d) g) ∷ c) = (d, p) ∷ delete_config c
delete_config ((k, _) ∷ c) = delete_config c

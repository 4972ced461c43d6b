-- ===== src/Config/Tests.antt =====
-- Configs with items, and the theorems at them.
use Prim.Native.String.{String}
use text.Mathlib.Text.{◌==◌ as str_eq}
use pmemkv.Base.{
  ℕ, ◌≡◌, ◌↔◌, ◌⊎◌, ◌<◌, ◌^◌, refl, [], ◌∷◌, Option, none, some, Bytes, if◌then◌else◌,
}
use pmemkv.Base.Int.{pos, negsuc}
use pmemkv.Config.{
  Config, sint64, uint64, string_v, data_v, object, get, put, get_string, get_data, get_object,
  get_int64, get_uint64, string_type, data_type, object_type,
}
use pmemkv.Config.Convert.{get_int-convert}
use pmemkv.Config.Items.{IsTypeError, IsOfOtherType, get-put, getters_typed}
use pmemkv.Status.{returns, throws, error, config_type_error}

abbrev items : Config
items = ("size", uint64 1024) ∷ ("debt", sint64 (negsuc 4)) ∷ ("path", string_v "/pool") ∷ []

abbrev more : Config
more = ("oid", data_v (1 ∷ [])) ∷ items

negative : get_uint64 "debt" items ≡ throws (error "Item with key: debt is < 0" config_type_error)
unfolding get_uint64
negative = refl

put_oid : put "oid" (data_v (1 ∷ [])) items ≡ returns more
unfolding put get
put_oid = refl

get-put_example :
    let key : String = "oid" in
    let j : String = "size" in
    let v = data_v (1 ∷ []) in
    let c = items in
    let d = more in (get key c ≡ none) × (get j d ≡ (if str_eq key j then some v else get j c))
get-put_example = get-put "oid" "size" (data_v (1 ∷ [])) items more put_oid

getters_typed_example :
    let key : String = "path" in
    let c = items in
    let s : String = "/pool" in
    let b : Bytes = [] in
    let q : ℕ = 0 in
    ((get_string key c ≡ returns (some s)) ↔ (get key c ≡ some (string_v s)))
    × ((get_string key c ≡ returns none) ↔ (get key c ≡ none))
    × (IsTypeError (get_string key c) ↔ IsOfOtherType string_type (get key c))
    × ((get_data key c ≡ returns (some b)) ↔ (get key c ≡ some (data_v b)))
    × ((get_data key c ≡ returns none) ↔ (get key c ≡ none))
    × (IsTypeError (get_data key c) ↔ IsOfOtherType data_type (get key c))
    × ((get_object key c ≡ returns (some q))
        ↔ ((p : ℕ) × (d : Option ℕ) × (g : ℕ → ℕ) × (get key c ≡ some (object p d g)) × (g p ≡ q)))
    × ((get_object key c ≡ returns none) ↔ (get key c ≡ none))
    × (IsTypeError (get_object key c) ↔ IsOfOtherType object_type (get key c))
getters_typed_example = getters_typed "path" items "/pool" [] 0

get_int-convert_example :
    let key : String = "size" in
    let c = items in
    let n : ℕ = 1024 in
    ((get_int64 key c ≡ returns (some (pos n)))
      ↔ ((get key c ≡ some (sint64 (pos n))) ⊎ ((get key c ≡ some (uint64 n)) × (n < 2 ^ 63))))
    × ((get_uint64 key c ≡ returns (some n))
        ↔ ((get key c ≡ some (sint64 (pos n))) ⊎ (get key c ≡ some (uint64 n))))
get_int-convert_example = get_int-convert "size" items 1024

-- ===== src/Config/Items.antt =====
-- Proofs about src/config.h: what `put` stores, and the checks of the typed getters.
use Prim.Native.String.{String}
use text.Mathlib.Text.{◌==◌ as str_eq}
use pmemkv.Base.{
  ◌≡◌, ◌≢◌, refl, ◌↔◌, Option, none, some, arith, if◌then◌else◌, Bytes, ℕ, true, inl, inr, ap,
  Bool-cases, Option-cases,
}
use pmemkv.Status.{Outcome, returns, throws, error, config_type_error, ◌>>=◌}
use pmemkv.Config.{
  Config, Variant, ItemType, string_type, int64_type, uint64_type, data_type, object_type,
  item_type, same_type, get_checked_item, throw_type_error, sint64, uint64, string_v, data_v,
  object, data_of, string_of, object_of, get, put, get_string, get_data, get_object,
}

-- A successful `put` had a free name; the new config finds the item under that name, and under
-- every other name what the old one found.
pub get-put :
    (key j : String) (v : Variant) (c d : Config)
    → put key v c ≡ returns d
    → (get key c ≡ none) × (get j d ≡ (if str_eq key j then some v else get j c))
unfolding put get
get-put key j v c d h = ground arith

object_of-eq_some :
    (o : Option Variant) (q : ℕ)
    → object_of o ≡ some q
    → (p : ℕ) × (d : Option ℕ) × (g : ℕ → ℕ) × (o ≡ some (object p d g)) × (g p ≡ q)
unfolding object_of
object_of-eq_some none q h = cc
object_of-eq_some (some (sint64 v)) q h = cc
object_of-eq_some (some (uint64 v)) q h = cc
object_of-eq_some (some (string_v v)) q h = cc
object_of-eq_some (some (data_v v)) q h = cc
object_of-eq_some (some (object p d g)) q h = (p, d, g, refl, ground arith)

-- the type error
abbrev pub IsTypeError : {A : Type 0} → Outcome A → Type 0
IsTypeError (returns a) = ⊥
IsTypeError (throws (error what status_code)) = status_code ≡ config_type_error
IsTypeError (throws _) = ⊥

-- an item that is there, of another type
abbrev pub IsOfOtherType : ItemType → Option Variant → Type 0
IsOfOtherType expected none = ⊥
IsOfOtherType expected (some v) = item_type v ≢ expected

same_type_iff : (a b : ItemType) → (same_type a b ≡ true) ↔ (a ≡ b)
same_type_iff string_type b = elim b [
  | string_type ↦ ground arith
  | int64_type ↦ ground arith
  | uint64_type ↦ ground arith
  | data_type ↦ ground arith
  | object_type ↦ ground arith
]
same_type_iff int64_type b = elim b [
  | string_type ↦ ground arith
  | int64_type ↦ ground arith
  | uint64_type ↦ ground arith
  | data_type ↦ ground arith
  | object_type ↦ ground arith
]
same_type_iff uint64_type b = elim b [
  | string_type ↦ ground arith
  | int64_type ↦ ground arith
  | uint64_type ↦ ground arith
  | data_type ↦ ground arith
  | object_type ↦ ground arith
]
same_type_iff data_type b = elim b [
  | string_type ↦ ground arith
  | int64_type ↦ ground arith
  | uint64_type ↦ ground arith
  | data_type ↦ ground arith
  | object_type ↦ ground arith
]
same_type_iff object_type b = elim b [
  | string_type ↦ ground arith
  | int64_type ↦ ground arith
  | uint64_type ↦ ground arith
  | data_type ↦ ground arith
  | object_type ↦ ground arith
]

-- What a getter makes of a checked item that it has a reading of.
typed :
    {A : Type 0} (key : String) (expected : ItemType) (c : Config)
    (read : Option Variant → Option A)
    → read none ≡ none
    → ((v : Variant) → item_type v ≡ expected → (a : A) × (read (some v) ≡ some a))
    → let r = get_checked_item key expected c >>= λ item. returns (read item) in
      ((r ≡ returns none) ↔ (get key c ≡ none))
      × (IsTypeError r ↔ IsOfOtherType expected (get key c))
unfolding get_checked_item throw_type_error
typed key expected c read n f = elim (Option-cases (get key c)) [
  | inl e ↦
      let k : get_checked_item key expected c ≡ returns none = rw (get_checked_item, e) refl in
      rw (k, e) (((λ x. refl), λ x. ap returns n), ((λ x. absurd x), λ x. absurd x))
  | inr (v, e) ↦ elim (Bool-cases (same_type (item_type v) expected)) [
    | inl h ↦
        let t = (same_type_iff (item_type v) expected).0 h in
        let (a, g) = f v t in
        let k : get_checked_item key expected c ≡ returns (some v) =
          rw (get_checked_item, e, h) refl in
        rw (k, e)
          (
            ((λ x. let x' : returns (some a) ≡ returns none = rw g at x in cc), λ x. cc),
            ((λ x. absurd x), λ x. absurd (x t)),
          )
    | inr h ↦
        let k : get_checked_item key expected c ≡ throw_type_error key (item_type v) expected =
          rw (get_checked_item, e, h) refl in
        rw (k, e)
          (
            ((λ x. cc), λ x. cc),
            ((λ x t. let z = (same_type_iff (item_type v) expected).1 t in cc), λ x. refl),
          )
  ]
]

readable_string :
    (v : Variant) → item_type v ≡ string_type → (a : String) × (string_of (some v) ≡ some a)
unfolding string_of item_type
readable_string (string_v s) h = (s, refl)
readable_string (sint64 v) h = cc
readable_string (uint64 v) h = cc
readable_string (data_v v) h = cc
readable_string (object p d g) h = cc

readable_data : (v : Variant) → item_type v ≡ data_type → (a : Bytes) × (data_of (some v) ≡ some a)
unfolding data_of item_type
readable_data (data_v b) h = (b, refl)
readable_data (sint64 v) h = cc
readable_data (uint64 v) h = cc
readable_data (string_v v) h = cc
readable_data (object p d g) h = cc

readable_object :
    (v : Variant) → item_type v ≡ object_type → (a : ℕ) × (object_of (some v) ≡ some a)
unfolding object_of item_type
readable_object (object p d g) h = (g p, refl)
readable_object (sint64 v) h = cc
readable_object (uint64 v) h = cc
readable_object (string_v v) h = cc
readable_object (data_v v) h = cc

-- A typed getter returns a value exactly where an item of its type stands under the name, and
-- then that item's value, for an object what its getter function makes of the pointer; it returns
-- that there is none exactly where the name is free; and it throws the type error exactly where an
-- item of another type stands there.
pub getters_typed :
    (key : String) (c : Config) (s : String) (b : Bytes) (q : ℕ)
    → ((get_string key c ≡ returns (some s)) ↔ (get key c ≡ some (string_v s)))
      × ((get_string key c ≡ returns none) ↔ (get key c ≡ none))
      × (IsTypeError (get_string key c) ↔ IsOfOtherType string_type (get key c))
      × ((get_data key c ≡ returns (some b)) ↔ (get key c ≡ some (data_v b)))
      × ((get_data key c ≡ returns none) ↔ (get key c ≡ none))
      × (IsTypeError (get_data key c) ↔ IsOfOtherType data_type (get key c))
      × ((get_object key c ≡ returns (some q)) ↔ (
          (p : ℕ) × (d : Option ℕ) × (g : ℕ → ℕ) × (get key c ≡ some (object p d g)) × (g p ≡ q)))
      × ((get_object key c ≡ returns none) ↔ (get key c ≡ none))
      × (IsTypeError (get_object key c) ↔ IsOfOtherType object_type (get key c))
unfolding get_string get_data get_object
getters_typed key c s b q =
    let x = typed key string_type c string_of refl readable_string in
    let y = typed key data_type c data_of refl readable_data in
    let z = typed key object_type c object_of refl readable_object in
    (
      ground arith,
      x.0,
      x.1,
      ground arith,
      y.0,
      y.1,
      (λ h. object_of-eq_some (get key c) q (ground arith), λ h. ground (arith, h.3, h.4)),
      z.0,
      z.1,
    )

-- ===== src/Engine/Factory.antt =====
-- src/engine.cc: `storage_engine_factory`, the map of the registered engine factories.
use Prim.Native.Nat.{Ordering}
use Prim.Native.String.{String, ◌++◌, compare}
use text.Mathlib.Text.{◌==◌ as str_eq}
use text.Mathlib.TextEquality.{eq_iff}
use pmemkv.Base.{
  ◌≡◌, refl, Bool, true, false, List, [], ◌∷◌, Option, none, some, if◌then◌else◌, is_some, arith,
}
use pmemkv.Status.{Outcome, returns, throw_invalid_argument, throw_wrong_engine_name}
use pmemkv.Config.{Config}

-- `factory_base::create`, from a `unique_ptr` to a config to an engine object
abbrev pub Create : Type 0 → Type 0
Create E = Option Config → Outcome E

-- `std::map<std::string, factory_type>`, in the order of the names
abbrev pub Factories : Type 0 → Type 0
Factories E = List (String × Create E)

unfoldable pub check_config_null : String → Option Config → Outcome Config
check_config_null engine_name none =
    throw_invalid_argument ("Config cannot be null for the '" ++ engine_name ++ "' engine")
check_config_null engine_name (some cfg) = returns cfg

module _ {E : Type 0} where
  -- `pairs.find(name)`
  unfoldable pub find_factory : String → Factories E → Option (Create E)
  find_factory name [] = none
  find_factory name ((n, f) ∷ fs) = if str_eq n name then some f else find_factory name fs

  -- the place that the order of the map gives a new name
  insert_factory : String → Create E → Factories E → Factories E
  insert_factory name f [] = (name, f) ∷ []
  insert_factory name f ((n, g) ∷ fs) =
      let rest = (n, g) ∷ insert_factory name f fs in
      elim (compare name n) [ Ordering.lt ↦ (name, f) ∷ (n, g) ∷ fs | _ ↦ rest ]

  -- `emplace(...).second`, with the map
  unfoldable pub register_factory : String → Create E → Factories E → Factories E × Bool
  unfolding insert_factory find_factory
  register_factory name f fs =
      if is_some (find_factory name fs) then (fs, false) else (insert_factory name f fs, true)

  -- the names with ", " between them
  unfoldable pub get_names : Factories E → String
  get_names [] = ""
  get_names ((n, f) ∷ []) = n
  get_names ((n, f) ∷ g ∷ fs) = n ++ ", " ++ get_names (g ∷ fs)

  unfoldable pub create_engine : String → Option Config → Factories E → Outcome E
  unfolding find_factory get_names
  create_engine name cfg fs = elim (find_factory name fs) [
    | some create ↦ create cfg
    | none ↦
        throw_wrong_engine_name
          ("Unknown engine name \"" ++ name ++ "\". Available engines: " ++ get_names fs)
  ]

  find_factory-insert_factory :
      (name q : String) (f : Create E) (fs : Factories E)
      → find_factory name fs ≡ none
      → find_factory q (insert_factory name f fs)
        ≡ (if str_eq name q then some f else find_factory q fs)
  unfolding find_factory insert_factory
  find_factory-insert_factory name q f [] h = refl
  find_factory-insert_factory name q f ((n, g) ∷ fs) h =
      ground
        (arith, find_factory-insert_factory name q f fs, eq_iff name q, eq_iff n q, eq_iff n name)

  -- Registering a factory under a free name reports `true`. From then on `create_engine` calls that
  -- factory under this name, and every other name finds the factory that it found before.
  pub create_engine-register_factory :
      (name q : String) (f : Create E) (cfg : Option Config) (fs : Factories E)
      → find_factory name fs ≡ none
      → ((register_factory name f fs).1 ≡ true)
        × (create_engine name cfg (register_factory name f fs).0 ≡ f cfg)
        × (find_factory q (register_factory name f fs).0
            ≡ (if str_eq name q then some f else find_factory q fs))
  unfolding register_factory create_engine
  create_engine-register_factory name q f cfg fs h = (
    ground arith,
    ground (arith, find_factory-insert_factory name name f fs h, eq_iff name name),
    ground (arith, find_factory-insert_factory name q f fs h),
  )

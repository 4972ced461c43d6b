-- ===== src/Pmemobj/Existing.antt =====
-- Proofs about src/pmemobj_engine.h: the opening of a pool that exists.
use pmemkv.Base.{
  ℕ, ◌≡◌, ◌≢◌, ◌⊎◌, refl, true, false, none, some, ◌==◌, Bool-cases, inl, inr, ==_iff,
}
use Prim.Native.String.{String}
use pmemkv.Config.{Config, get_size}
use pmemkv.Pmemobj.{
  PoolResult, opened, pool_invalid_argument, failed, Pools, Opened, flags, create_or_fail,
  create_sized, open_or_create, pmemobj_engine_base, caught, by_path, place_items,
}
use pmemkv.Status.{Outcome, returns, throws}

-- A pool is not made in the place of one that can be opened, whatever the layout and the size.
pub record KeepsExisting {F P : Type 0} (pools : Pools F P) : Type 0 where
  pub files :
      (path layout : String) (size : ℕ) (f : F) (p : P)
      → pools.open_pool path layout f ≡ opened p
      → (pools.create_pool path layout size f).0 ≡ f
  pub fails :
      (path layout : String) (size : ℕ) (f : F) (p p' : P)
      → pools.open_pool path layout f ≡ opened p
      → (pools.create_pool path layout size f).1 ≢ opened p'

module _ {F P : Type 0} (pools : Pools F P) (keeps : KeepsExisting pools) (path layout : String)
    (f : F) (p : P) (there : pools.open_pool path layout f ≡ opened p) where
  -- A result that leaves the files as they are and is no pool.
  abbrev Fails : {R : Type 0} → F × Outcome R → Type 0
  Fails {R} r = (r.0 ≡ f) × ((o : R) → r.1 ≢ returns o)

  caught-Fails :
      (r : F × PoolResult P) → r.0 ≡ f → ((p' : P) → r.1 ≢ opened p') → Fails (r.0, caught r.1)
  caught-Fails (f', opened p') same fails = absurd (fails p' refl)
  caught-Fails (f', pool_invalid_argument what) same fails = (same, (λ o h. cc))
  caught-Fails (f', failed e) same fails = (same, (λ o h. cc))

  create_sized-Fails : (size : Outcome ℕ) → Fails (create_sized pools size path layout f)
  unfolding create_or_fail
  create_sized-Fails (returns size) =
      caught-Fails (pools.create_pool path layout size f) (keeps.files path layout size f p there)
        (λ p'. keeps.fails path layout size f p p' there)
  create_sized-Fails (throws e) = (refl, (λ o h. cc))

  by_path-Fails : (r : F × Outcome P) → Fails r → Fails (by_path pools r)
  by_path-Fails (f', returns p') (same, fails) = absurd (fails p' refl)
  by_path-Fails (f', throws e) (same, fails) = (same, (λ o h. cc))

  both_flags-Fails :
      (cfg : Config) (missing exists : ℕ)
      → (exists == 0) ≡ false
      → Fails (open_or_create pools cfg path layout (missing, exists) f)
  unfolding open_or_create
  both_flags-Fails cfg missing exists e = elim (Bool-cases (missing == 0)) [
    | inl m ↦ rw (e, m) (create_sized-Fails (get_size cfg))
    | inr m ↦ rw (e, m) (refl, (λ o h. cc))
  ]

  no_force-open :
      (cfg : Config) (missing exists : ℕ)
      → (exists == 0) ≡ true
      → open_or_create pools cfg path layout (missing, exists) f ≡ (f, returns p)
  unfolding open_or_create
  no_force-open cfg missing exists e = elim (Bool-cases (missing == 0)) [
    | inl m ↦ rw (e, m, there) refl
    | inr m ↦ rw (e, m, there) refl
  ]

  -- Where a pool with the engine's layout stands at the config's path, it is never replaced: with
  -- `create_or_error_if_exists` or `force_create` set the constructor throws and leaves the files as
  -- they are, and without, it opens that pool, also where `create_if_missing` is set.
  pub pmemobj_engine_base-existing :
      (cfg : Config) (missing exists : ℕ)
      → place_items cfg ≡ returns (some path, none)
      → flags cfg ≡ returns (missing, exists)
      → ((exists ≡ 0)
          × (pmemobj_engine_base pools cfg layout f ≡ (
            f,
            returns (record { pmpool = p; root_oid = pools.root_of p; cfg_by_path = true }),
          )))
        ⊎ ((exists ≢ 0)
            × ((pmemobj_engine_base pools cfg layout f).0 ≡ f)
            × ((o : Opened P) → (pmemobj_engine_base pools cfg layout f).1 ≢ returns o))
  unfolding pmemobj_engine_base
  pmemobj_engine_base-existing cfg missing exists items fl = elim (Bool-cases (exists == 0)) [
    | inl e ↦ inl ((==_iff exists 0).0 e, rw (items, fl, no_force-open cfg missing exists e) refl)
    | inr e ↦
        let (same, fails) = by_path-Fails _ (both_flags-Fails cfg missing exists e) in
        inr ((λ z. cc ((==_iff exists 0).1 z)), rw (items, fl) same, rw (items, fl) fails)
  ]

-- ===== src/Csmap/View.antt =====
-- src/engines-experimental/csmap.cc and src/engines/vsmap.cc: what it means that the methods of the
-- one do what those of the other do on the same entries.
use pmemkv.Base.{ℕ, suc, ◌≡◌, refl, Bool, false, [], ◌∷◌, Bytes, drop, if◌then◌else◌}
use pmemkv.Csmap
use pmemkv.Csmap.{ConcurrentMap, Csmap, outside_tx, iterate, iterate_rest, key_comp}
use pmemkv.Engine.{Method, KvCallback, ValueCallback}
use pmemkv.OrderedMap.{Map}
use pmemkv.Status.{Status, Outcome, throws, scope_error}
use pmemkv.Vsmap
use pmemkv.Vsmap.{Vsmap, iterate_through_pairs}

iterate_rest-Vsmap :
    {A : Type 0} (i last : ℕ) (m : Map) (callback : KvCallback A) (arg : A)
    → iterate_rest i last m callback arg ≡ Vsmap.iterate_from i last m callback arg
unfolding iterate_rest Vsmap.iterate_from
iterate_rest-Vsmap i last [] callback arg = refl
iterate_rest-Vsmap i last ((k, v) ∷ m) callback arg =
    rw (iterate_rest-Vsmap (suc i) last m callback (callback k v arg).1) refl

module _ {C : Type 0} (m : ConcurrentMap C) where
  -- the volatile engine with the same order and entries
  abbrev pub view : Csmap C → Vsmap
  view s = record { compare = s.compare.cmp; container = m.entries s.container }

  -- The method does what one of vsmap does on the view, with the same result and output; in a
  -- transaction it throws and changes nothing.
  abbrev pub Agrees :
      {O : Type 0} → Bool → Method (Csmap C) O → Method Vsmap O → Csmap C → O → Type 0
  Agrees {O} in_tx f g s o =
      ◌≡◌ {A = Vsmap × O × Outcome Status} (view (f s o).0, (f s o).1, (f s o).2)
        (if in_tx
          then (view s, o, throws (scope_error "Function called inside transaction scope."))
          else g (view s) o)

  pub iterate-Vsmap :
      {A : Type 0} (s : Csmap C) (first last : ℕ) (callback : KvCallback A) (arg : A)
      → iterate m false s first last callback arg
        ≡ iterate_through_pairs first last (m.entries s.container) callback arg
  unfolding iterate iterate_through_pairs
  iterate-Vsmap s first last callback arg =
      iterate_rest-Vsmap first last (drop first (m.entries s.container)) callback arg

  -- Each method agrees with the one of vsmap, or throws.
  pub record IsLikeVsmap (in_tx : Bool) (s : Csmap C) : Type 1 where
    pub count_all : (cnt : ℕ) → Agrees in_tx (Csmap.count_all m in_tx) Vsmap.count_all s cnt
    pub count_above :
        (key : Bytes) (cnt : ℕ)
        → Agrees in_tx (Csmap.count_above m in_tx key) (Vsmap.count_above key) s cnt
    pub count_equal_above :
        (key : Bytes) (cnt : ℕ)
        → Agrees in_tx (Csmap.count_equal_above m in_tx key) (Vsmap.count_equal_above key) s cnt
    pub count_equal_below :
        (key : Bytes) (cnt : ℕ)
        → Agrees in_tx (Csmap.count_equal_below m in_tx key) (Vsmap.count_equal_below key) s cnt
    pub count_below :
        (key : Bytes) (cnt : ℕ)
        → Agrees in_tx (Csmap.count_below m in_tx key) (Vsmap.count_below key) s cnt
    pub count_between :
        (key1 key2 : Bytes) (cnt : ℕ)
        → Agrees in_tx (Csmap.count_between m in_tx key1 key2) (Vsmap.count_between key1 key2) s cnt
    pub get_all :
        {A : Type 0} (callback : KvCallback A) (arg : A)
        → Agrees in_tx (Csmap.get_all m in_tx A callback) (Vsmap.get_all A callback) s arg
    pub get_above :
        {A : Type 0} (key : Bytes) (callback : KvCallback A) (arg : A)
        → Agrees in_tx
            (Csmap.get_above m in_tx A key callback)
            (Vsmap.get_above A key callback)
            s
            arg
    pub get_equal_above :
        {A : Type 0} (key : Bytes) (callback : KvCallback A) (arg : A)
        → Agrees in_tx
            (Csmap.get_equal_above m in_tx A key callback)
            (Vsmap.get_equal_above A key callback)
            s
            arg
    pub get_equal_below :
        {A : Type 0} (key : Bytes) (callback : KvCallback A) (arg : A)
        → Agrees in_tx
            (Csmap.get_equal_below m in_tx A key callback)
            (Vsmap.get_equal_below A key callback)
            s
            arg
    pub get_below :
        {A : Type 0} (key : Bytes) (callback : KvCallback A) (arg : A)
        → Agrees in_tx
            (Csmap.get_below m in_tx A key callback)
            (Vsmap.get_below A key callback)
            s
            arg
    pub get_between :
        {A : Type 0} (key1 key2 : Bytes) (callback : KvCallback A) (arg : A)
        → Agrees in_tx
            (Csmap.get_between m in_tx A key1 key2 callback)
            (Vsmap.get_between A key1 key2 callback)
            s
            arg
    pub exists : (key : Bytes) → Agrees in_tx (Csmap.exists m in_tx key) (Vsmap.exists key) s tt
    pub get :
        {A : Type 0} (key : Bytes) (callback : ValueCallback A) (arg : A)
        → Agrees in_tx (Csmap.get m in_tx A key callback) (Vsmap.get A key callback) s arg
    pub put :
        (key value : Bytes) → Agrees in_tx (Csmap.put m in_tx key value) (Vsmap.put key value) s tt
    pub remove : (key : Bytes) → Agrees in_tx (Csmap.remove m in_tx key) (Vsmap.remove key) s tt

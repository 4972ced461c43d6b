-- ===== src/Tree3/Sessions.antt =====
-- A client of src/engines-experimental/tree3.cc: calls and restarts one after the other, from the
-- first start over no leaves.
use pmemkv.Base.{
  ℕ, ◌≡◌, ◌≢◌, ◌∙◌, ◌⊎◌, refl, ap, List, [], ◌∷◌, Option, none, some, Bytes, Bool, true, false,
  if◌then◌else◌, inl, inr, Bool-cases, is_some, arith,
}
use pmemkv.Engine.{ValueCallback}
use pmemkv.Status.{Status, ok, not_found, Outcome, returns, ◌>>=◌}
use pmemkv.Tree3.{same}
use pmemkv.Tree3.Methods.{Tree3, put, remove, get}
use pmemkv.Tree3.Put.{put-tree_value}
use pmemkv.Tree3.Nodes.Order.{same_iff}
use pmemkv.Tree3.Recovery.{recover}
use pmemkv.Tree3.Recovery.Restart.{recover-tree_value}
use pmemkv.Tree3.Remove.{remove-tree_value}
use pmemkv.Tree3.States.{IsValid, tree_value, get-tree_value}

pub data Request : Type 0 where
  put_request : Bytes → Bytes → Request
  remove_request : Bytes → Request
  restart : Request

-- What a sequence of requests makes of a map from keys to values.
abbrev pub update : Request → (Bytes → Option Bytes) → Bytes → Option Bytes
update (put_request key value) m q = if same key q then some value else m q
update (remove_request key) m q = if same key q then none else m q
update restart m q = m q

abbrev pub updates : List Request → (Bytes → Option Bytes) → Bytes → Option Bytes
updates [] m = m
updates (r ∷ rs) m = updates rs (update r m)

-- No request puts the empty key.
abbrev pub NoEmptyKey : List Request → Type 0
NoEmptyKey [] = Unit
NoEmptyKey (put_request key value ∷ rs) = (key ≢ []) × NoEmptyKey rs
NoEmptyKey (remove_request key ∷ rs) = NoEmptyKey rs
NoEmptyKey (restart ∷ rs) = NoEmptyKey rs

-- a pool without a leaf
abbrev pub first : Tree3
first = record { leaves = []; leaves_prealloc = []; tree_top = none }

module _ (before_table : ℕ → ℕ) (ndebug : Bool) where
  -- Each call of the engine outside of a transaction. A restart keeps the persistent leaves only;
  -- `none` is the end of the process at an assertion.
  unfoldable pub request : Request → Tree3 → Outcome (Option Tree3)
  unfolding put remove recover
  request (put_request key value) s = put before_table false key value s >>= λ r. returns (some r.0)
  request (remove_request key) s = remove before_table false key s >>= λ r. returns (some r.0)
  request restart s = returns (recover ndebug s.leaves)

  unfoldable pub session : List Request → Tree3 → Outcome (Option Tree3)
  unfolding request
  session [] s = returns (some s)
  session (r ∷ rs) s =
      request r s >>= λ s'. elim s' [ none ↦ returns none | some s1 ↦ session rs s1 ]

  -- A state that is valid and has the values of a map.
  pub record Represents (s : Tree3) (m : Bytes → Option Bytes) : Type 0 where
    pub valid : IsValid before_table s
    pub values : (q : Bytes) → tree_value before_table s q ≡ m q

  -- Assertions are off, or the empty key has no value.
  abbrev Quiet : (Bytes → Option Bytes) → Type 0
  Quiet m = (ndebug ≡ true) ⊎ (m [] ≡ none)

  request-Represents :
      (r : Request) (s : Tree3) (m : Bytes → Option Bytes)
      → Represents s m
      → Quiet m
      → (s' : Tree3) × (request r s ≡ returns (some s')) × Represents s' (update r m)
  unfolding request
  request-Represents (put_request key value) s m w quiet =
      let (s', e, v, values) = put-tree_value before_table s key value w.valid in
      (
        s',
        ap (λ (o : Outcome (Tree3 × Status)). o >>= λ r. returns (some r.0)) e,
        record { valid = v; values = λ q. values q ∙ rw (w.values q) refl },
      )
  request-Represents (remove_request key) s m w quiet =
      let (s', e, v, values) = remove-tree_value before_table s key w.valid in
      (
        s',
        ap (λ (o : Outcome (Tree3 × Status)). o >>= λ r. returns (some r.0)) e,
        record { valid = v; values = λ q. values q ∙ rw (w.values q) refl },
      )
  request-Represents restart s m w quiet = elim (recover-tree_value before_table ndebug s w.valid) [
    | inl (s', e, v, values) ↦
        (s', ap returns e, record { valid = v; values = λ q. values q ∙ w.values q })
    | inr (e, n, h) ↦ elim quiet [
      | inl y ↦ cc
      | inr y ↦ let h' : is_some (m []) ≡ true = rw (w.values []) at h.0 in cc
    ]
  ]

  update-Quiet :
      (r : Request) (rs : List Request) (m : Bytes → Option Bytes)
      → (ndebug ≡ true) ⊎ NoEmptyKey (r ∷ rs)
      → Quiet m
      → Quiet (update r m) × ((ndebug ≡ true) ⊎ NoEmptyKey rs)
  update-Quiet r rs m (inl n) quiet = (inl n, inl n)
  update-Quiet (put_request key value) rs m (inr (n, k)) quiet =
      let d : same key [] ≡ false = ground (arith, same_iff key []) in
      (elim quiet [ inl y ↦ inl y | inr y ↦ inr (rw d y) ], inr k)
  update-Quiet (remove_request key) rs m (inr k) quiet = (
    elim quiet [
      | inl y ↦ inl y
      | inr y ↦ inr (elim (Bool-cases (same key [])) [ inl h ↦ rw h refl | inr h ↦ rw h y ])
    ],
    inr k,
  )
  update-Quiet restart rs m (inr k) quiet = (quiet, inr k)

  session-Represents :
      (rs : List Request) (s : Tree3) (m : Bytes → Option Bytes)
      → (ndebug ≡ true) ⊎ NoEmptyKey rs
      → Represents s m
      → Quiet m
      → (s' : Tree3) × (session rs s ≡ returns (some s')) × Represents s' (updates rs m)
  unfolding session
  session-Represents [] s m k w quiet = (s, refl, w)
  session-Represents (r ∷ rs) s m k w quiet =
      let (s1, e, w1) = request-Represents r s m w quiet in
      let (quiet1, k1) = update-Quiet r rs m k quiet in
      let (s2, e2, w2) = session-Represents rs s1 (update r m) k1 w1 quiet1 in (s2, rw e e2, w2)

  -- The engine that starts over no leaves has no values.
  first-Represents : Represents first (λ q. none)
  unfolding tree_value
  first-Represents = record {
    valid = record { top_valid = tt; spare = record { unused = tt; others = λ l h. elim h [ ] } };
    values = λ q. refl;
  }

  -- Any sequence of `put`, `remove` and restarts from the first start over no leaves, in a build
  -- without assertions or with no `put` of the empty key, returns, with no exception, a state in
  -- which `get` passes to the callback the value that the last request on the key has put, or
  -- returns `not_found` if there is none or it was removed. All starts have the same bytes before
  -- the lookup table of the hash.
  pub get-session :
      (rs : List Request)
      → (ndebug ≡ true) ⊎ NoEmptyKey rs
      → (s : Tree3) × (session (restart ∷ rs) first ≡ returns (some s))
        × ((q : Bytes) (callback : ValueCallback (List Bytes)) (arg : List Bytes)
            → get before_table false q callback s arg
              ≡ returns (
                  some (elim (updates rs (λ _. none) q) [
                    | none ↦ (arg, not_found)
                    | some v ↦ (callback v arg, ok)
                  ])))
  get-session rs k =
      let (s, e, w) =
        session-Represents (restart ∷ rs) first (λ _. none)
          (elim k [ inl n ↦ inl n | inr n ↦ inr n ]) first-Represents (inr refl) in
      (
        s,
        e,
        λ q callback arg.
            rw (← w.values q) (get-tree_value before_table s q callback arg w.valid).0,
      )

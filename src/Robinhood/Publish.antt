-- ===== src/Robinhood/Publish.antt =====
-- Proofs about src/engines-experimental/robinhood.cc: an insertion whose writes are published
-- together, on a table that the loop reads as it was.
use native.Mathlib.Decide.{ℕ_discrete}
use pmemkv.Base.{
  ℕ, zero, suc, ◌+◌, ◌≡◌, ◌<◌, ◌∙◌, refl, sym, Bool, true, false, List, [], ◌∷◌, ◌++◌, set,
  get_or-set_self, get_or-set_ne, arith,
}
use pmemkv.Robinhood.{Entry, Hashmap, zero_entry, entry_at, hash, max_swaps, entry_is_empty}
use pmemkv.Robinhood.Bounds.{hash_bounds, increment_pos_bounds}
use pmemkv.Robinhood.Count.{
  IsValid, live, overwrite-IsValid, fill-IsValid, insert_round, rebuild_loop-IsValid,
}
use pmemkv.Robinhood.Insert.{
  Action, set_entry, set_count, perform, publish, insert_loop, insert_helper,
}

publish-append :
    (as1 as2 : List Action) (m : Hashmap) → publish (as1 ++ as2) m ≡ publish as2 (publish as1 m)
unfolding publish
publish-append [] as2 m = refl
publish-append (a ∷ as1) as2 m = publish-append as1 as2 (perform a m)

publish_entry :
    (pos : ℕ) (e : Entry) (m : Hashmap)
    → publish (set_entry pos e ∷ []) m ≡ record m { entries = set m.entries pos e }
unfolding publish
publish_entry pos e m = refl

publish_count : (n : ℕ) (m : Hashmap) → publish (set_count n ∷ []) m ≡ record m { count = n }
unfolding publish
publish_count n m = refl

-- What the actions so far make of the table: a valid one, in which the same slots are in use.
record Pending (m : Hashmap) (actions : List Action) : Type 0 where
  valid : IsValid (publish actions m)
  same_capacity : (publish actions m).capacity ≡ m.capacity
  same_count : (publish actions m).count ≡ m.count
  same_live : (i : ℕ) → live (entry_at (publish actions m).entries i) ≡ live (entry_at m.entries i)

module _ (m : Hashmap) (actions : List Action) (w : Pending m actions) (pos : ℕ) (e : Entry)
    (p : pos < m.capacity) (l : live e ≡ 1) where
  inside : pos < (publish actions m).capacity
  inside = rw w.same_capacity p

  update-publish :
      publish (actions ++ set_entry pos e ∷ []) m
      ≡ record (publish actions m) { entries = set (publish actions m).entries pos e }
  update-publish = publish-append actions _ m ∙ publish_entry pos e (publish actions m)

  update-IsValid :
      live (entry_at m.entries pos) ≡ 1 → IsValid (publish (actions ++ set_entry pos e ∷ []) m)
  update-IsValid h =
      rw update-publish
        (overwrite-IsValid (publish actions m) w.valid pos e inside l (w.same_live pos ∙ h))

  live-set :
      live (entry_at m.entries pos) ≡ 1
      → (i : ℕ)
      → live (entry_at (set (publish actions m).entries pos e) i) ≡ live (entry_at m.entries i)
  live-set h i = elim (ℕ_discrete pos i) [
    | yes q ↦ rw (← q) (
        rw (get_or-set_self (publish actions m).entries pos e zero_entry (rw w.valid.sized inside))
          (l ∙ sym h))
    | no q ↦ rw (get_or-set_ne (publish actions m).entries pos i e zero_entry q) (w.same_live i)
  ]

  update-Pending : live (entry_at m.entries pos) ≡ 1 → Pending m (actions ++ set_entry pos e ∷ [])
  update-Pending h = record {
    valid = update-IsValid h;
    same_capacity = rw update-publish w.same_capacity;
    same_count = rw update-publish w.same_count;
    same_live = λ i. rw update-publish (live-set h i);
  }

  add-publish :
      publish ((actions ++ set_count (m.count + 1) ∷ []) ++ set_entry pos e ∷ []) m
      ≡ record (publish actions m) {
        count = (publish actions m).count + 1;
        entries = set (publish actions m).entries pos e;
      }
  add-publish =
      publish-append (actions ++ set_count (m.count + 1) ∷ []) _ m
      ∙ publish_entry pos e _
      ∙ rw (publish-append actions, publish_count, w.same_count)

  add-IsValid :
      live (entry_at m.entries pos) ≡ 0
      → IsValid (publish ((actions ++ set_count (m.count + 1) ∷ []) ++ set_entry pos e ∷ []) m)
  add-IsValid h =
      rw add-publish (fill-IsValid (publish actions m) w.valid pos e inside l (w.same_live pos ∙ h))

publish_loop-IsValid :
    (n : ℕ) (e : Entry) (pos dist : ℕ) (m : Hashmap) (actions : List Action)
    → IsValid m
    → Pending m actions
    → pos < m.capacity
    → live e ≡ 1
    → IsValid (insert_loop n false e pos dist (record { map = m; actions = actions })).0
unfolding insert_loop
publish_loop-IsValid zero e pos dist m actions v w p l = v
publish_loop-IsValid (suc n) e pos dist m actions v w p l =
    let (low, inside) = increment_pos_bounds m.capacity pos v.roomy in
    insert_round (λ r. IsValid r.0) n false e pos dist (record { map = m; actions = actions })
      (λ h _. update-IsValid m actions w pos e p l h) (λ h. add-IsValid m actions w pos e p l h)
      (λ h. publish_loop-IsValid n _ _ _ m _ v (update-Pending m actions w pos e p l h) inside h)
      (publish_loop-IsValid n e _ _ m actions v w inside l)

-- An insertion that fails, with its actions cancelled, leaves the table as it was.
cancelled_loop :
    (n : ℕ) (e : Entry) (pos dist : ℕ) (m : Hashmap) (actions : List Action)
    → let r = insert_loop n false e pos dist (record { map = m; actions = actions }) in
      r.1 ≡ false → r.0 ≡ m
unfolding insert_loop
cancelled_loop zero e pos dist m actions = λ h. refl
cancelled_loop (suc n) e pos dist m actions =
    insert_round (λ r. r.1 ≡ false → r.0 ≡ m) n false e pos dist
      (record { map = m; actions = actions }) (λ h k f. cc) (λ h f. cc)
      (λ h. cancelled_loop n _ _ _ m _) (cancelled_loop n e _ _ m actions)

pub hashed_live :
    (capacity key value : ℕ)
    → live (record { key = key; value = value; hash = hash capacity key }) ≡ 1
unfolding live entry_is_empty hash
hashed_live capacity key value = ground arith

-- On a valid table `insert_helper`, in use or during a rebuild, keeps it valid whatever its result:
-- the entries fill the capacity, and `count` is the number of slots in use.
pub insert_helper-IsValid :
    (m : Hashmap) (key value : ℕ) (rebuild : Bool)
    → IsValid m
    → IsValid (insert_helper m key value rebuild).0
unfolding insert_helper publish
insert_helper-IsValid m key value true v =
    let (low, high) = hash_bounds m.capacity key v.roomy in
    rebuild_loop-IsValid max_swaps _ _ 0 m v high (hashed_live m.capacity key value)
insert_helper-IsValid m key value false v =
    let (low, high) = hash_bounds m.capacity key v.roomy in
    publish_loop-IsValid max_swaps _ _ 0 m [] v
      (record { valid = v; same_capacity = refl; same_count = refl; same_live = λ i. refl }) high
      (hashed_live m.capacity key value)

-- An insertion into a table in use that returns -1 leaves the table as it was.
pub insert_helper-cancelled :
    (m : Hashmap) (key value : ℕ)
    → (insert_helper m key value false).1 ≡ false
    → (insert_helper m key value false).0 ≡ m
unfolding insert_helper
insert_helper-cancelled m key value h = cancelled_loop max_swaps _ _ 0 m [] h

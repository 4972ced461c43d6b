-- ===== src/Robinhood/Count.antt =====
-- Proofs about src/engines-experimental/robinhood.cc: `count` is the number of the slots in use,
-- through insertions with their swaps and through removals.
use pmemkv.Base.{
  ℕ, zero, suc, ◌+◌, ◌≡◌, ◌≤◌, ◌<◌, ◌∙◌, Bool, true, false, List, [], ◌∷◌, length, set, length-set,
  if◌then◌else◌, arith, ltb, ◌==◌, not, ◌&&◌, Bool-cases, inl, inr,
}
use pmemkv.Robinhood.{
  Entry, Hashmap, entry_is_deleted, entry_is_empty, increment_pos, probe_distance, entry_at,
}
use pmemkv.Robinhood.Bounds.{increment_pos_bounds}
use pmemkv.Robinhood.Insert.{Work, entry_update, entry_add, finish, insert_loop}

-- 1 for a slot in use, 0 for one that is empty or holds a tombstone
unfoldable pub live : Entry → ℕ
live e = if entry_is_empty e.hash then 0 else 1

unfoldable pub live_count : List Entry → ℕ
live_count [] = 0
live_count (e ∷ es) = live e + live_count es

pub record IsValid (m : Hashmap) : Type 0 where
  pub sized : length m.entries ≡ m.capacity
  pub roomy : 2 ≤ m.capacity
  pub counted : m.count ≡ live_count m.entries

live_count-set :
    (es : List Entry) (p : ℕ) (e : Entry)
    → p < length es
    → live_count (set es p e) + live (entry_at es p) ≡ live_count es + live e
unfolding live_count
live_count-set [] p e h = absurd (omega arith)
live_count-set (f ∷ es) zero e h = omega arith
live_count-set (f ∷ es) (suc p) e h = omega (arith, live_count-set es p e (omega arith))

pub live-eq_one : (e : Entry) → entry_is_empty e.hash ≡ false → live e ≡ 1
unfolding live
live-eq_one e h = rw h

pub live-eq_zero : (e : Entry) → entry_is_empty e.hash ≡ true → live e ≡ 0
unfolding live
live-eq_zero e h = rw h

-- Writes during a rebuild. What the loop does to a table is: it puts a used entry into a used slot,
-- or at the end into one that is not.
module _ (m : Hashmap) (v : IsValid m) (pos : ℕ) (e : Entry) (p : pos < m.capacity)
    (l : live e ≡ 1) where
  pub overwrite-IsValid :
      live (entry_at m.entries pos) ≡ 1 → IsValid (record m { entries = set m.entries pos e })
  overwrite-IsValid h = record {
    sized = length-set m.entries pos e ∙ v.sized;
    roomy = v.roomy;
    counted = omega (arith, live_count-set m.entries pos e (rw v.sized p), v.counted);
  }

  pub fill-IsValid :
      live (entry_at m.entries pos) ≡ 0
      → IsValid (record m { count = m.count + 1; entries = set m.entries pos e })
  fill-IsValid h = record {
    sized = length-set m.entries pos e ∙ v.sized;
    roomy = v.roomy;
    counted = omega (arith, live_count-set m.entries pos e (rw v.sized p), v.counted);
  }

-- One round of the loop: what holds of the result on each of its ways out holds of the round.
module _ (Q : Hashmap × Bool → Type 0) (n : ℕ) (rebuild : Bool) (e : Entry) (pos dist : ℕ)
    (w : Work) where
  abbrev pub here : Entry
  here = entry_at w.map.entries pos

  abbrev pub moved : Hashmap × Bool
  moved =
      insert_loop n rebuild here (increment_pos w.map.capacity pos)
        (probe_distance w.map.capacity here.hash pos + 1) (entry_update rebuild pos e w)

  abbrev pub passed : Hashmap × Bool
  passed = insert_loop n rebuild e (increment_pos w.map.capacity pos) (dist + 1) w

  dead_of_deleted : entry_is_deleted here.hash ≡ true → live here ≡ 0
  unfolding live entry_is_empty
  dead_of_deleted d = ground arith

  live_of_used : (here.hash == 0) ≡ false → entry_is_deleted here.hash ≡ false → live here ≡ 1
  unfolding live entry_is_empty
  live_of_used h d = ground arith

  dead_of_zero : (here.hash == 0) ≡ true → live here ≡ 0
  unfolding live entry_is_empty
  dead_of_zero h = ground arith

  live_of_matched : (not (entry_is_empty here.hash) && here.key == e.key) ≡ true → live here ≡ 1
  unfolding live
  live_of_matched h = ground arith

  key_of_matched : (not (entry_is_empty here.hash) && here.key == e.key) ≡ true → here.key ≡ e.key
  key_of_matched h = ground arith

  pub insert_round :
      (live here ≡ 1 → here.key ≡ e.key → Q (finish (entry_update rebuild pos e w)))
      → (live here ≡ 0 → Q (finish (entry_add rebuild pos e w)))
      → (live here ≡ 1 → Q moved)
      → Q passed
      → Q (insert_loop (suc n) rebuild e pos dist w)
  unfolding insert_loop
  insert_round update add move pass =
      elim (Bool-cases (not (entry_is_empty here.hash) && here.key == e.key)) [
        | inl match ↦ rw match (update (live_of_matched match) (key_of_matched match))
        | inr other ↦ rw other (elim (Bool-cases (here.hash == 0)) [
          | inl z ↦ rw z (add (dead_of_zero z))
          | inr u ↦
              rw u (elim (Bool-cases (ltb (probe_distance w.map.capacity here.hash pos) dist)) [
                | inl near ↦ rw near (elim (Bool-cases (entry_is_deleted here.hash)) [
                  | inl d ↦ rw d (add (dead_of_deleted d))
                  | inr d ↦ rw d (move (live_of_used u d))
                ])
                | inr far ↦ rw far pass
              ])
        ])
      ]

pub rebuild_loop-IsValid :
    (n : ℕ) (e : Entry) (pos dist : ℕ) (m : Hashmap)
    → IsValid m
    → pos < m.capacity
    → live e ≡ 1
    → IsValid (insert_loop n true e pos dist (record { map = m; actions = [] })).0
unfolding insert_loop
rebuild_loop-IsValid zero e pos dist m v p l = v
rebuild_loop-IsValid (suc n) e pos dist m v p l =
    let w : Work = record { map = m; actions = [] } in
    let (low, inside) = increment_pos_bounds m.capacity pos v.roomy in
    insert_round (λ r. IsValid r.0) n true e pos dist w (λ h _. overwrite-IsValid m v pos e p l h)
      (λ h. fill-IsValid m v pos e p l h)
      (λ h. rebuild_loop-IsValid n _ _ _ _ (overwrite-IsValid m v pos e p l h) inside h)
      (rebuild_loop-IsValid n e _ _ m v inside l)

-- ===== src/Robinhood/Insert.antt =====
-- src/engines-experimental/robinhood.cc: `insert_helper`. On a table in use, every write is an action
-- that `pmemobj_publish` applies at the end, so the loop reads the table as it was; during a
-- rebuild the writes are made at once.
use pmemkv.Base.{
  ℕ, zero, suc, ◌+◌, Bool, true, false, not, ◌&&◌, List, [], ◌∷◌, ◌++◌, set, ltb, ◌==◌,
  if◌then◌else◌,
}
use pmemkv.Robinhood.{
  Entry, Hashmap, max_swaps, entry_is_deleted, entry_is_empty, increment_pos, probe_distance, hash,
  entry_at,
}

-- `pmemobj_set_value` on the three fields of an entry, or on the count
pub data Action : Type 0 where
  set_entry : ℕ → Entry → Action
  set_count : ℕ → Action

-- the table and the actions that are not published
pub record Work : Type 0 where
  pub map : Hashmap
  pub actions : List Action

unfoldable pub perform : Action → Hashmap → Hashmap
perform (set_entry pos e) m = record m { entries = set m.entries pos e }
perform (set_count n) m = record m { count = n }

unfoldable pub publish : List Action → Hashmap → Hashmap
unfolding perform
publish [] m = m
publish (a ∷ rest) m = publish rest (perform a m)

unfoldable pub entry_update : Bool → ℕ → Entry → Work → Work
entry_update rebuild pos e w =
    if rebuild
    then record w { map = record w.map { entries = set w.map.entries pos e } }
    else record w { actions = w.actions ++ set_entry pos e ∷ [] }

unfoldable pub entry_add : Bool → ℕ → Entry → Work → Work
unfolding entry_update
entry_add rebuild pos e w =
    let counted =
      if rebuild
      then record w { map = record w.map { count = w.map.count + 1 } }
      else record w { actions = w.actions ++ set_count (w.map.count + 1) ∷ [] } in
    entry_update rebuild pos e counted

-- `pmemobj_publish` where there are actions, and the return of 0
unfoldable pub finish : Work → Hashmap × Bool
unfolding publish
finish w = (publish w.actions w.map, true)

-- The loop with the rounds left, the entry in hand, its position and its probe distance; `false`
-- is the return of -1, with the actions cancelled.
unfoldable pub insert_loop : ℕ → Bool → Entry → ℕ → ℕ → Work → Hashmap × Bool
unfolding entry_update entry_add finish entry_is_empty increment_pos probe_distance
insert_loop zero rebuild e pos dist w = (w.map, false)
insert_loop (suc n) rebuild e pos dist w =
    let here = entry_at w.map.entries pos in
    let existing_dist = probe_distance w.map.capacity here.hash pos in
    let pos' = increment_pos w.map.capacity pos in
    let swapped =
      insert_loop n rebuild here pos' (existing_dist + 1) (entry_update rebuild pos e w) in
    let kept = insert_loop n rebuild e pos' (dist + 1) w in
    if not (entry_is_empty here.hash) && here.key == e.key
    then finish (entry_update rebuild pos e w)
    else if here.hash == 0
    then finish (entry_add rebuild pos e w)
    else if ltb existing_dist dist
    then (if entry_is_deleted here.hash then finish (entry_add rebuild pos e w) else swapped)
    else kept

unfoldable pub insert_helper : Hashmap → ℕ → ℕ → Bool → Hashmap × Bool
unfolding insert_loop hash
insert_helper m key value rebuild =
    let h = hash m.capacity key in
    insert_loop max_swaps rebuild (record { key = key; value = value; hash = h }) h 0
      (record { map = m; actions = [] })

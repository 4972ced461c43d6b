-- ===== src/Vsmap/Iterator/Range.antt =====
-- Proofs about src/engines/vsmap.cc: reading and writing a range of the value at an iterator.
use mathlib.Core.Logic.{◌≢◌}
use native.Mathlib.Nat.{zero-add, suc-add}
use pmemkv.Base.{
  ℕ, zero, suc, ◌+◌, ◌≡◌, ◌<◌, ◌≤◌, ◌^◌, refl, ap, true, [], ◌∷◌, ◌++◌, some, Bytes, length,
  get_elem?, take, drop, arith, min, Option-cases, inl, inr,
}
use pmemkv.OrderedMap.{Map, Entry, assign}
use pmemkv.Status.{ok}
use pmemkv.Vsmap.{Vsmap}
use pmemkv.Vsmap.Iterator.{
  VsmapIterator, current, read_range, write_range, overwrite, apply_log, commit, abort,
}

-- A range that begins inside the value is cut at the value's end, also where `pos + n` wraps, and
-- needs no reading past it.
pub read_range_inside :
    (s : Vsmap) (i : VsmapIterator) (pos n : ℕ) (e : Entry)
    → current s i ≡ some e
    → pos ≤ length e.1
    → length e.1 < 2 ^ 64
    → n < 2 ^ 64
    → read_range pos n s i ≡ some (pos, min (pos + n) (length e.1))
unfolding read_range
read_range_inside s i pos n e c p w h = ground arith

overwrite_start :
    (v bs : Bytes) → length bs ≤ length v → overwrite v zero bs ≡ bs ++ drop (length bs) v
unfolding overwrite
overwrite_start [] [] h = refl
overwrite_start [] (b ∷ bs) h = absurd (omega arith)
overwrite_start (x ∷ xs) [] h = refl
overwrite_start (x ∷ xs) (b ∷ bs) h = ap (◌∷◌ b) (overwrite_start xs bs (omega arith))

overwrite_split :
    (v : Bytes) (pos : ℕ) (bs : Bytes)
    → pos + length bs ≤ length v
    → overwrite v pos bs ≡ take pos v ++ bs ++ drop (pos + length bs) v
unfolding overwrite
overwrite_split v zero bs h = rw zero-add (overwrite_start v bs (omega arith))
overwrite_split [] (suc pos) bs h = absurd (omega arith)
overwrite_split (x ∷ xs) (suc pos) bs h =
    rw suc-add (ap (◌∷◌ x) (overwrite_split xs pos bs (omega arith)))

get_elem?-assign_self :
    (m : Map) (p : ℕ) (e : Entry) (v : Bytes)
    → get_elem? m p ≡ some e
    → get_elem? (assign p v m) p ≡ some (e.0, v)
unfolding assign
get_elem?-assign_self [] p e v h = cc
get_elem?-assign_self (f ∷ m) zero e v h = ground arith
get_elem?-assign_self (f ∷ m) (suc p) e v h = get_elem?-assign_self m p e v h

get_elem?-assign_ne :
    (m : Map) (p q : ℕ) (v : Bytes) → p ≢ q → get_elem? (assign p v m) q ≡ get_elem? m q
unfolding assign
get_elem?-assign_ne [] p q v n = refl
get_elem?-assign_ne (f ∷ m) zero zero v n = absurd (n refl)
get_elem?-assign_ne (f ∷ m) zero (suc q) v n = refl
get_elem?-assign_ne (f ∷ m) (suc p) zero v n = refl
get_elem?-assign_ne (f ∷ m) (suc p) (suc q) v n = get_elem?-assign_ne m p q v (λ e. n (ap suc e))

assign_same : (m : Map) (p : ℕ) (e : Entry) → get_elem? m p ≡ some e → assign p e.1 m ≡ m
unfolding assign
assign_same [] p e h = refl
assign_same (f ∷ m) zero e h = ground arith
assign_same (f ∷ m) (suc p) e h = ap (◌∷◌ f) (assign_same m p e h)

-- On a writable iterator with an empty log, at an entry whose value the range lies in:
-- `write_range` hands out a copy of the range; after the caller has put `bs` in its place, `commit`
-- stores `bs` there, leaves the rest of the value, the key, every other entry and the comparator,
-- and empties the log.
pub commit-write_range :
    (s : Vsmap) (i : VsmapIterator) (pos q : ℕ) (bs : Bytes) (e : Entry)
    → i.writable ≡ true
    → i.log ≡ []
    → current s i ≡ some e
    → pos + length bs ≤ length e.1
    → length e.1 < 2 ^ 64
    → i.it ≢ q
    → let written = record i { log = (bs, pos) ∷ [] } in
      (write_range pos (length bs) s i
        ≡ some (record i { log = (take (length bs) (drop pos e.1), pos) ∷ [] }, ok))
      × (current (commit s written).0 i
          ≡ some (e.0, take pos e.1 ++ bs ++ drop (pos + length bs) e.1))
      × (get_elem? (commit s written).0.container q ≡ get_elem? s.container q)
      × ((commit s written).0.compare ≡ s.compare)
      × ((commit s written).1.log ≡ [])
unfolding write_range commit current apply_log
commit-write_range s i pos q bs e w l c fits h n = (
  ground arith,
  rw (w, c, ← overwrite_split e.1 pos bs fits) (get_elem?-assign_self s.container i.it e _ c),
  rw (w, c) (get_elem?-assign_ne s.container i.it q _ n),
  rw (w, c),
  rw (w, c),
)

-- After `abort` a `commit` changes nothing, whatever was written before.
commit-abort : (s : Vsmap) (i : VsmapIterator) → (commit s (abort i)).0 ≡ s
unfolding commit abort current apply_log
commit-abort s i = elim (Option-cases (get_elem? s.container i.it)) [
  | inl h ↦ ground arith
  | inr (e, h) ↦ ground (arith, assign_same s.container i.it e h)
]

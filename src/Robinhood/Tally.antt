-- ===== src/Robinhood/Tally.antt =====
-- Proofs about src/engines-experimental/robinhood.cc: what an insertion and a rebuild make of the
-- contents of the table, which a tally counts by any test on keys and values.
use pmemkv.Base.{
  ℕ, zero, suc, ◌+◌, ◌≡◌, ◌≤◌, ◌<◌, refl, Bool, true, List, [], ◌∷◌, length, set, arith, ◌==◌,
  if◌then◌else◌,
}
use pmemkv.Robinhood.{Entry, Hashmap, entry_at}
use pmemkv.Robinhood.Bounds.{increment_pos_bounds}
use pmemkv.Robinhood.Count.{IsValid, live, overwrite-IsValid, insert_round}
use pmemkv.Robinhood.Insert.{Work, insert_loop}

-- 1 for a slot in use whose key and value pass the test, else 0
unfoldable pub matches : (ℕ → ℕ → Bool) → Entry → ℕ
unfolding live
matches test e = if test e.key e.value then live e else 0

unfoldable pub tally : (ℕ → ℕ → Bool) → List Entry → ℕ
unfolding matches
tally test [] = 0
tally test (e ∷ es) = matches test e + tally test es

abbrev pub key_is : ℕ → ℕ → ℕ → Bool
key_is q k v = k == q

-- No key stands in two slots.
unfoldable pub IsDistinct : List Entry → Type 0
unfolding tally
IsDistinct es = (q : ℕ) → tally (key_is q) es ≤ 1

pub tally-set :
    (test : ℕ → ℕ → Bool) (es : List Entry) (p : ℕ) (e : Entry)
    → p < length es
    → tally test (set es p e) + matches test (entry_at es p) ≡ tally test es + matches test e
unfolding tally
tally-set test [] p e h = absurd (omega arith)
tally-set test (f ∷ es) zero e h = omega arith
tally-set test (f ∷ es) (suc p) e h = omega (arith, tally-set test es p e (omega arith))

pub matches-le-tally :
    (test : ℕ → ℕ → Bool) (es : List Entry) (p : ℕ)
    → p < length es
    → matches test (entry_at es p) ≤ tally test es
unfolding tally
matches-le-tally test [] p h = absurd (omega arith)
matches-le-tally test (f ∷ es) zero h = omega arith
matches-le-tally test (f ∷ es) (suc p) h = omega (arith, matches-le-tally test es p (omega arith))

-- What the loop does to the tallies in a rebuild, with the entry `e` in hand.
unfoldable pub Gains : Hashmap → Entry → Hashmap × Bool → Type 0
Gains m e r =
    r.1 ≡ true
    → (test : ℕ → ℕ → Bool) → tally test r.0.entries ≡ tally test m.entries + matches test e

pub matches_dead : (test : ℕ → ℕ → Bool) (e : Entry) → live e ≡ 0 → matches test e ≡ 0
unfolding matches
matches_dead test e h = ground arith

pub matches_key : (e : Entry) (q : ℕ) → live e ≡ 1 → e.key ≡ q → matches (key_is q) e ≡ 1
unfolding matches
matches_key e q l h = ground arith

module _ (m : Hashmap) (v : IsValid m) (pos : ℕ) (e : Entry) (p : pos < m.capacity)
    (l : live e ≡ 1) where
  exchange :
      (test : ℕ → ℕ → Bool)
      → tally test (set m.entries pos e) + matches test (entry_at m.entries pos)
        ≡ tally test m.entries + matches test e
  exchange test = tally-set test m.entries pos e (rw v.sized p)

  -- The key in hand is nowhere in the table, so no slot matches it.
  no_match :
      {A : Type 0}
      → ((q : ℕ) → tally (key_is q) m.entries + matches (key_is q) e ≤ 1)
      → live (entry_at m.entries pos) ≡ 1
      → (entry_at m.entries pos).key ≡ e.key
      → A
  no_match d h k = absurd (
      omega (
        arith,
        d e.key,
        matches_key e e.key l refl,
        matches_key (entry_at m.entries pos) e.key h k,
        matches-le-tally (key_is e.key) m.entries pos (rw v.sized p),
      ))

pub rebuild_loop-tally :
    (n : ℕ) (e : Entry) (pos dist : ℕ) (m : Hashmap)
    → IsValid m
    → pos < m.capacity
    → live e ≡ 1
    → ((q : ℕ) → tally (key_is q) m.entries + matches (key_is q) e ≤ 1)
    → Gains m e (insert_loop n true e pos dist (record { map = m; actions = [] }))
unfolding insert_loop Gains
rebuild_loop-tally zero e pos dist m v p l d = λ f. cc
rebuild_loop-tally (suc n) e pos dist m v p l d =
    let w : Work = record { map = m; actions = [] } in
    let here = entry_at m.entries pos in
    let (low, inside) = increment_pos_bounds m.capacity pos v.roomy in
    insert_round (Gains m e) n true e pos dist w (λ h k. no_match m v pos e p l d h k)
      (λ h done test. omega (arith, exchange m v pos e p l test, matches_dead test here h))
      (λ h done test. omega (
        arith,
        exchange m v pos e p l test,
        rebuild_loop-tally n here _ _ _ (overwrite-IsValid m v pos e p l h) inside h
            (λ q. omega (arith, exchange m v pos e p l (key_is q), d q)) done test,
      ))
      (rebuild_loop-tally n e _ _ m v inside l d)

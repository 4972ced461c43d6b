-- ===== src/Robinhood/Remove.antt =====
-- Proofs about src/engines-experimental/robinhood.cc: the removal of a key, with the rebuild that
-- may follow it.
use pmemkv.Base.{
  ℕ, ◌+◌, ◌/◌, ◌^◌, ◌≡◌, ◌≢◌, ◌≤◌, ◌<◌, ◌∙◌, refl, ap, Bool, true, false, List, [], ◌∷◌, some,
  length, set, length-set, arith, ltb, leb, ◌&&◌, ◌==◌, if◌then◌else◌, Bool-cases, inl, inr,
}
use pmemkv.Robinhood.{
  Entry, Hashmap, entry_at, entry_is_empty, entry_is_deleted, init_entries_num, tombstone_mask,
}
use pmemkv.Robinhood.Bounds.{index_lookup_sound, hash_bounds}
use pmemkv.Robinhood.Count.{IsValid, live, live_count}
use pmemkv.Robinhood.Lookup.{index_lookup}
use pmemkv.Robinhood.Rebuild.{IsRebuilt, live_count-tally, hm_rp_rebuild-IsRebuilt}
use pmemkv.Robinhood.Resize.{bury, hm_rp_rebuild, hm_rp_remove}
use pmemkv.Robinhood.Tally.{
  matches, tally, key_is, IsDistinct, matches-le-tally, matches_dead, matches_key, tally-set,
}

-- The table is valid, and what stood in the slot is gone from it, but nothing else.
unfoldable pub IsRemoved : Hashmap → ℕ → Hashmap → Type 0
unfolding matches tally
IsRemoved m p r =
    IsValid r
    × ((test : ℕ → ℕ → Bool)
        → tally test r.entries + matches test (entry_at m.entries p) ≡ tally test m.entries)
    × (r.count + 1 ≡ m.count)

live-le : (e : Entry) → live e ≤ 1
unfolding live
live-le e = ground arith

live_count-le : (es : List Entry) → live_count es ≤ length es
unfolding live_count
live_count-le [] = omega arith
live_count-le (e ∷ es) = omega (arith, live_count-le es, live-le e)

matches_all : (e : Entry) → matches (λ k v. true) e ≡ live e
unfolding matches
matches_all e = refl

in_use : (e : Entry) → 1 ≤ e.hash → e.hash < 2 ^ 63 → live e ≡ 1
unfolding live entry_is_empty entry_is_deleted
in_use e l u = ground arith

bury-entries :
    (m : Hashmap) (p : ℕ)
    → (entry_at m.entries p).hash < 2 ^ 63
    → (bury m p).entries
      ≡ set m.entries p
          (record { key = 0; value = 0; hash = (entry_at m.entries p).hash + tombstone_mask })
unfolding bury entry_is_deleted
bury-entries m p h =
    ap (λ x. set m.entries p (record { key = 0; value = 0; hash = x })) (ground arith)

dead_tombstone : (h : ℕ) → live (record { key = 0; value = 0; hash = h + tombstone_mask }) ≡ 0
unfolding live entry_is_empty entry_is_deleted
dead_tombstone h = ground arith

module _ (m : Hashmap) (v : IsValid m) (p : ℕ) (i : p < m.capacity) (c : m.capacity ≤ 2 ^ 63)
    (l : 1 ≤ (entry_at m.entries p).hash) (u : (entry_at m.entries p).hash < 2 ^ 63) where
  abbrev gone : Entry
  gone = entry_at m.entries p

  bury-tally :
      (test : ℕ → ℕ → Bool)
      → tally test (bury m p).entries + matches test gone ≡ tally test m.entries
  bury-tally test = rw (bury-entries m p u) (
      omega (
        arith,
        tally-set test m.entries p _ (rw v.sized i),
        matches_dead test _ (dead_tombstone gone.hash),
      ))

  some_counted : 1 ≤ m.count
  some_counted = omega (
    arith,
    v.counted,
    live_count-tally m.entries,
    matches_all gone,
    in_use gone l u,
    matches-le-tally (λ k v. true) m.entries p (rw v.sized i),
  )

  bury-count : (bury m p).count + 1 ≡ m.count
  unfolding bury
  bury-count = omega (arith, some_counted, live_count-le m.entries, v.counted, v.sized)

  bury-IsValid : IsValid (bury m p)
  unfolding bury
  bury-IsValid = record {
    sized = rw (bury-entries m p u) (length-set m.entries p _ ∙ v.sized);
    roomy = v.roomy;
    counted = omega (
      arith,
      bury-count,
      live_count-tally (bury m p).entries,
      bury-tally (λ k v. true),
      matches_all gone,
      in_use gone l u,
      live_count-tally m.entries,
      v.counted,
    );
  }

  bury-IsRemoved : IsRemoved m p (bury m p)
  unfolding IsRemoved
  bury-IsRemoved = (bury-IsValid, bury-tally, bury-count)

  bury-IsDistinct : IsDistinct m.entries → IsDistinct (bury m p).entries
  unfolding IsDistinct
  bury-IsDistinct d q = omega (arith, bury-tally (key_is q), d q)

  -- The rebuild after the removal keeps what the removal has left.
  rebuild-IsRemoved :
      IsDistinct m.entries → (n : ℕ) → 2 ≤ n → IsRemoved m p (hm_rp_rebuild (bury m p) n).0
  unfolding IsRemoved IsRebuilt
  rebuild-IsRemoved d n g =
      let r = hm_rp_rebuild-IsRebuilt (bury m p) n bury-IsValid (bury-IsDistinct d) g in
      (r.0, (λ test. omega (arith, r.1 test, bury-tally test)), omega (arith, r.3, bury-count))

abbrev shrinks : Hashmap → ℕ → Bool
shrinks m p =
    let reduced = m.load_factor (m.capacity / 2) in
    leb init_entries_num reduced && ltb (bury m p).count reduced

hm_rp_remove-found :
    (m : Hashmap) (key p : ℕ)
    → index_lookup m key ≡ some p
    → p ≢ 0
    → hm_rp_remove m key
      ≡ some (if shrinks m p then hm_rp_rebuild (bury m p) (m.capacity / 2) else (bury m p, true))
unfolding hm_rp_remove bury
hm_rp_remove-found m key p h n =
    let off : (p == 0) ≡ false = ground arith in
    elim (Bool-cases (shrinks m p)) [
      | inl b ↦ rw (h, hm_rp_remove, off, b) refl
      | inr b ↦ rw (h, hm_rp_remove, off, b) refl
    ]

-- On a valid table in which no key stands twice, of at most 2^63 slots and with a resize threshold
-- of at most the capacity: where the lookup finds the key, `hm_rp_remove` returns, whatever the
-- rebuild after it comes to. Then the table is valid, `count` is one less, and of the pairs of keys
-- and values the one in the key's slot is gone and no other; no slot holds the key.
pub hm_rp_remove-IsRemoved :
    (m : Hashmap) (key p : ℕ)
    → IsValid m
    → IsDistinct m.entries
    → m.capacity ≤ 2 ^ 63
    → ((c : ℕ) → m.load_factor c ≤ c)
    → index_lookup m key ≡ some p
    → p ≢ 0
    → (r : Hashmap × Bool) × (hm_rp_remove m key ≡ some r)
      × IsRemoved m p r.0
      × (tally (key_is key) r.0.entries ≡ 0)
unfolding IsDistinct IsRemoved
hm_rp_remove-IsRemoved m key p v d c load found n =
    let s = index_lookup_sound m key p v.roomy found n in
    let (low, high) = hash_bounds m.capacity key v.roomy in
    let l : 1 ≤ (entry_at m.entries p).hash = omega (arith, s.3, low) in
    let u : (entry_at m.entries p).hash < 2 ^ 63 = omega (arith, s.3, high) in
    let one = matches_key (entry_at m.entries p) key (in_use (entry_at m.entries p) l u) s.2 in
    let no_key : (r : Hashmap) → IsRemoved m p r → tally (key_is key) r.entries ≡ 0 =
      λ r w. omega (arith, w.1 (key_is key), d key, one) in
    let half = m.capacity / 2 in
    let code = hm_rp_remove-found m key p found n in
    elim (Bool-cases (shrinks m p)) [
      | inl b ↦
          let r = hm_rp_rebuild (bury m p) half in
          let w = rebuild-IsRemoved m v p s.1 c l u d half (ground (arith, load half)) in
          (r, code ∙ rw b refl, w, no_key r.0 w)
      | inr b ↦
          let w = bury-IsRemoved m v p s.1 c l u in
          ((bury m p, true), code ∙ rw b refl, w, no_key (bury m p) w)
    ]

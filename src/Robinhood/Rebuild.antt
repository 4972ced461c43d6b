-- ===== src/Robinhood/Rebuild.antt =====
-- Proofs about src/engines-experimental/robinhood.cc: a rebuild of the table at another capacity.
use pmemkv.Base.{
  ℕ, zero, suc, ◌+◌, ◌≡◌, ◌≤◌, ◌∙◌, refl, sym, Bool, true, false, List, [], ◌∷◌, none, some,
  replicate, length-replicate, arith, if◌then◌else◌, Bool-cases, Option-cases, inl, inr,
}
use pmemkv.Robinhood.{Entry, Hashmap, zero_entry, max_swaps, entry_is_empty, hash}
use pmemkv.Robinhood.Bounds.{hash_bounds}
use pmemkv.Robinhood.Count.{IsValid, live, live_count, live-eq_one, live-eq_zero, insert_round}
use pmemkv.Robinhood.Insert.{insert_loop, insert_helper}
use pmemkv.Robinhood.Publish.{hashed_live, insert_helper-IsValid}
use pmemkv.Robinhood.Resize.{entries_cache, hm_rp_rebuild}
use pmemkv.Robinhood.Tally.{
  matches, tally, key_is, IsDistinct, Gains, matches_dead, rebuild_loop-tally,
}

rebuild_loop-capacity :
    (n : ℕ) (e : Entry) (pos dist : ℕ) (m : Hashmap)
    → (insert_loop n true e pos dist (record { map = m; actions = [] })).0.capacity ≡ m.capacity
unfolding insert_loop
rebuild_loop-capacity zero e pos dist m = refl
rebuild_loop-capacity (suc n) e pos dist m =
    insert_round (λ r. r.0.capacity ≡ m.capacity) n true e pos dist
      (record { map = m; actions = [] }) (λ h k. refl) (λ h. refl)
      (λ h. rebuild_loop-capacity n _ _ _ _) (rebuild_loop-capacity n e _ _ m)

rehash : ℕ → Entry → Entry
rehash capacity e = record { key = e.key; value = e.value; hash = hash capacity e.key }

matches-rehash :
    (test : ℕ → ℕ → Bool) (capacity : ℕ) (e : Entry)
    → live e ≡ 1
    → matches test (rehash capacity e) ≡ matches test e
unfolding matches rehash
matches-rehash test capacity e l = rw (l, hashed_live capacity e.key e.value) refl

-- What an insertion into the new table does with an entry of the old one in use.
insert_helper-tally :
    (m : Hashmap) (e : Entry)
    → IsValid m
    → live e ≡ 1
    → ((q : ℕ) → tally (key_is q) m.entries + matches (key_is q) e ≤ 1)
    → (insert_helper m e.key e.value true).1 ≡ true
    → (test : ℕ → ℕ → Bool)
    → tally test (insert_helper m e.key e.value true).0.entries
      ≡ tally test m.entries + matches test e
unfolding insert_helper Gains rehash
insert_helper-tally m e v l d done test =
    let (low, high) = hash_bounds m.capacity e.key v.roomy in
    rebuild_loop-tally max_swaps (rehash m.capacity e) _ 0 m v high
      (hashed_live m.capacity e.key e.value)
      (λ q. rw (matches-rehash (key_is q) m.capacity e l) (d q)) done test
    ∙ rw (matches-rehash test m.capacity e l)

insert_helper-capacity :
    (m : Hashmap) (key value : ℕ) → (insert_helper m key value true).0.capacity ≡ m.capacity
unfolding insert_helper
insert_helper-capacity m key value = rebuild_loop-capacity max_swaps _ _ 0 m

-- What the loop over the old table's entries makes of the new table.
record Gathered (dest : Hashmap) (es : List Entry) (r : Hashmap) : Type 0 where
  valid : IsValid r
  same_capacity : r.capacity ≡ dest.capacity
  gained : (test : ℕ → ℕ → Bool) → tally test r.entries ≡ tally test dest.entries + tally test es

module _ (dest : Hashmap) (e : Entry) (es : List Entry) where
  entries_cache-unused :
      entry_is_empty e.hash ≡ true → entries_cache dest (e ∷ es) ≡ entries_cache dest es
  unfolding entries_cache
  entries_cache-unused h = rw (h, entries_cache) refl

  entries_cache-inserted :
      entry_is_empty e.hash ≡ false
      → (insert_helper dest e.key e.value true).1 ≡ true
      → entries_cache dest (e ∷ es) ≡ entries_cache (insert_helper dest e.key e.value true).0 es
  unfolding entries_cache
  entries_cache-inserted h done = rw (h, done, entries_cache) refl

  entries_cache-failed :
      entry_is_empty e.hash ≡ false
      → (insert_helper dest e.key e.value true).1 ≡ false
      → entries_cache dest (e ∷ es) ≡ none
  unfolding entries_cache
  entries_cache-failed h done = rw (h, done, entries_cache) refl

entries_cache-Gathered :
    (dest : Hashmap) (es : List Entry) (r : Hashmap)
    → IsValid dest
    → ((q : ℕ) → tally (key_is q) dest.entries + tally (key_is q) es ≤ 1)
    → entries_cache dest es ≡ some r
    → Gathered dest es r
unfolding entries_cache tally
entries_cache-Gathered dest [] r v d h =
    let same : dest ≡ r = cc in
    rw (← same) (record { valid = v; same_capacity = refl; gained = λ test. omega arith })
entries_cache-Gathered dest (e ∷ es) r v d h = elim (Bool-cases (entry_is_empty e.hash)) [
  | inl x ↦
      let dead = live-eq_zero e x in
      let rest =
        entries_cache-Gathered dest es r v (λ q. omega (arith, d q, matches_dead (key_is q) e dead))
          (sym (entries_cache-unused dest e es x) ∙ h) in
      record {
        valid = rest.valid;
        same_capacity = rest.same_capacity;
        gained = λ test. omega (arith, rest.gained test, matches_dead test e dead);
      }
  | inr x ↦ elim (Bool-cases (insert_helper dest e.key e.value true).1) [
    | inl done ↦
        let dest' = (insert_helper dest e.key e.value true).0 in
        let gain = insert_helper-tally dest e v (live-eq_one e x) (λ q. omega (arith, d q)) done in
        let rest =
          entries_cache-Gathered dest' es r (insert_helper-IsValid dest e.key e.value true v)
            (λ q. omega (arith, d q, gain (key_is q)))
            (sym (entries_cache-inserted dest e es x done) ∙ h) in
        record {
          valid = rest.valid;
          same_capacity = rest.same_capacity ∙ insert_helper-capacity dest e.key e.value;
          gained = λ test. omega (arith, rest.gained test, gain test);
        }
    | inr failed ↦ (let q : none ≡ some r = sym (entries_cache-failed dest e es x failed) ∙ h in cc)
  ]
]

live_count-replicate : (n : ℕ) → live_count (replicate n zero_entry) ≡ 0
unfolding live_count live entry_is_empty
live_count-replicate zero = refl
live_count-replicate (suc n) = omega (arith, live_count-replicate n)

tally-replicate : (test : ℕ → ℕ → Bool) (n : ℕ) → tally test (replicate n zero_entry) ≡ 0
unfolding tally matches live entry_is_empty
tally-replicate test zero = refl
tally-replicate test (suc n) = ground (arith, tally-replicate test n)

pub live_count-tally : (es : List Entry) → live_count es ≡ tally (λ k v. true) es
unfolding live_count tally matches
live_count-tally [] = refl
live_count-tally (e ∷ es) = omega (arith, live_count-tally es)

-- What a rebuild keeps of a table: it is valid, and the same keys and values are in it.
unfoldable pub IsRebuilt : Hashmap → ℕ → Hashmap × Bool → Type 0
unfolding tally
IsRebuilt m capacity_new r =
    IsValid r.0
    × ((test : ℕ → ℕ → Bool) → tally test r.0.entries ≡ tally test m.entries)
    × (r.0.capacity ≡ (if r.1 then capacity_new else m.capacity))
    × (r.0.count ≡ m.count)

publish_fresh-IsRebuilt :
    (m fresh rebuilt : Hashmap) (capacity_new threshold_new : ℕ)
    → IsValid m
    → 2 ≤ capacity_new
    → fresh.capacity ≡ capacity_new
    → ((test : ℕ → ℕ → Bool) → tally test fresh.entries ≡ 0)
    → Gathered fresh m.entries rebuilt
    → IsRebuilt m capacity_new (
      record m {
        capacity = capacity_new;
        resize_threshold = threshold_new;
        entries = rebuilt.entries;
      },
      true,
    )
unfolding IsRebuilt
publish_fresh-IsRebuilt m fresh rebuilt capacity_new threshold_new v c f z g =
    let same : (test : ℕ → ℕ → Bool) → tally test rebuilt.entries ≡ tally test m.entries =
      λ test. omega (arith, g.gained test, z test) in
    (
      record {
        sized = g.valid.sized ∙ g.same_capacity ∙ f;
        roomy = c;
        counted =
            v.counted
            ∙ live_count-tally m.entries
            ∙ sym (same (λ k v. true))
            ∙ sym (live_count-tally rebuilt.entries);
      },
      same,
      refl,
      refl,
    )

-- A rebuild of a valid table in which no key stands twice leaves it valid, with the same count and
-- with exactly the same pairs of keys and values, each as often as before; the capacity is the new
-- one if the rebuild succeeds and the old one if it fails.
pub hm_rp_rebuild-IsRebuilt :
    (m : Hashmap) (capacity_new : ℕ)
    → IsValid m
    → IsDistinct m.entries
    → 2 ≤ capacity_new
    → IsRebuilt m capacity_new (hm_rp_rebuild m capacity_new)
unfolding hm_rp_rebuild IsDistinct IsRebuilt
hm_rp_rebuild-IsRebuilt m capacity_new v d c =
    let fresh : Hashmap = record {
      count = 0;
      capacity = capacity_new;
      resize_threshold = m.load_factor capacity_new;
      load_factor = m.load_factor;
      entries = replicate capacity_new zero_entry;
    } in
    let fresh_IsValid : IsValid fresh = record {
      sized = length-replicate capacity_new zero_entry;
      roomy = c;
      counted = sym (live_count-replicate capacity_new);
    } in
    let empty = λ (test : ℕ → ℕ → Bool). tally-replicate test capacity_new in
    elim (Option-cases (entries_cache fresh m.entries)) [
      | inl h ↦ rw (h, hm_rp_rebuild) (v, (λ test. refl), refl, refl)
      | inr (rebuilt, h) ↦
          rw (h, hm_rp_rebuild)
            (publish_fresh-IsRebuilt m fresh rebuilt capacity_new _ v c refl empty (
              entries_cache-Gathered fresh m.entries rebuilt fresh_IsValid
                (λ q. omega (arith, empty (key_is q), d q)) h))
    ]

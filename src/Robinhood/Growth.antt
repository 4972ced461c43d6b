-- ===== src/Robinhood/Growth.antt =====
-- Proofs about src/engines-experimental/robinhood.cc: an insertion with the rebuild before it.
use pmemkv.Base.{ℕ, ◌+◌, ◌*◌, ◌≡◌, refl, Bool, false, arith, leb, Bool-cases, inl, inr}
use pmemkv.Robinhood.{Hashmap}
use pmemkv.Robinhood.Count.{IsValid}
use pmemkv.Robinhood.Publish.{insert_helper-IsValid, insert_helper-cancelled}
use pmemkv.Robinhood.Rebuild.{IsRebuilt, hm_rp_rebuild-IsRebuilt}
use pmemkv.Robinhood.Resize.{hm_rp_rebuild, hm_rp_insert}
use pmemkv.Robinhood.Tally.{IsDistinct, tally}

-- On a valid table in which no key stands twice `hm_rp_insert` keeps the table valid, with or
-- without a rebuild and whatever its result.
pub hm_rp_insert-IsValid :
    (m : Hashmap) (key value : ℕ)
    → IsValid m
    → IsDistinct m.entries
    → IsValid (hm_rp_insert m key value).0
unfolding hm_rp_insert IsRebuilt
hm_rp_insert-IsValid m key value v d =
    let grown = (hm_rp_rebuild m (m.capacity * 2)).0 in
    let g = hm_rp_rebuild-IsRebuilt m (m.capacity * 2) v d (omega (arith, v.roomy)) in
    elim (Bool-cases (leb m.resize_threshold (m.count + 1))) [
      | inl full ↦ elim (Bool-cases (hm_rp_rebuild m (m.capacity * 2)).1) [
        | inl done ↦ rw (full, done) (insert_helper-IsValid grown key value false g.0)
        | inr failed ↦ rw (full, failed) v
      ]
      | inr roomy ↦ rw roomy (insert_helper-IsValid m key value false v)
    ]

-- Where `hm_rp_insert` returns -1 on a valid table in which no key stands twice, exactly the same
-- pairs of keys and values are in the table as before, each as often, and `count` is the same, also
-- where a rebuild came before the failure.
pub hm_rp_insert-failed :
    (m : Hashmap) (key value : ℕ)
    → IsValid m
    → IsDistinct m.entries
    → (hm_rp_insert m key value).1 ≡ false
    → ((test : ℕ → ℕ → Bool)
        → tally test (hm_rp_insert m key value).0.entries ≡ tally test m.entries)
      × ((hm_rp_insert m key value).0.count ≡ m.count)
unfolding hm_rp_insert IsRebuilt
hm_rp_insert-failed m key value v d =
    let grown = (hm_rp_rebuild m (m.capacity * 2)).0 in
    let g = hm_rp_rebuild-IsRebuilt m (m.capacity * 2) v d (omega (arith, v.roomy)) in
    let r = hm_rp_insert m key value in
    let cases : r.1 ≡ false
        → ((test : ℕ → ℕ → Bool) → tally test r.0.entries ≡ tally test m.entries)
          × (r.0.count ≡ m.count) =
      elim (Bool-cases (leb m.resize_threshold (m.count + 1))) [
        | inl full ↦ elim (Bool-cases (hm_rp_rebuild m (m.capacity * 2)).1) [
          | inl done ↦
              rw (full, done) (λ f. rw (insert_helper-cancelled grown key value f) (g.1, g.3))
          | inr failed ↦ rw (full, failed) (λ f. ((λ test. refl), refl))
        ]
        | inr roomy ↦
            rw roomy (λ f. rw (insert_helper-cancelled m key value f) ((λ test. refl), refl))
      ] in
    cases

-- ===== src/Robinhood/Traversal.antt =====
-- Proofs about src/engines-experimental/robinhood.cc: the traversal of a table against its count.
use pmemkv.Base.{
  ℕ, ◌≡◌, refl, List, [], ◌∷◌, length, arith, ◌==◌, if◌then◌else◌, Bool-cases, inl, inr, ◌∙◌, sym,
}
use pmemkv.Robinhood.{Entry, Hashmap, entry_is_empty}
use pmemkv.Robinhood.Count.{IsValid, live_count, live-eq_one, live-eq_zero}
use pmemkv.Robinhood.Lookup.{foreach_entry, hm_rp_foreach, hm_rp_count}

-- The keys and values of the slots in use, in the order of the slots.
unfoldable pub contents : List Entry → List (ℕ × ℕ)
contents [] = []
contents (e ∷ es) = if entry_is_empty e.hash then contents es else (e.key, e.value) ∷ contents es

-- The callback on one pair after the other, until it returns a number other than 0.
unfoldable pub call_each : {A : Type 0} → (ℕ → ℕ → A → ℕ × A) → List (ℕ × ℕ) → A → ℕ × A
call_each cb [] arg = (0, arg)
call_each cb ((k, v) ∷ rest) arg =
    let (ret, arg') = cb k v arg in
    let later = call_each cb rest arg' in if ret == 0 then later else (ret, arg')

foreach_entry-contents :
    {A : Type 0} (es : List Entry) (cb : ℕ → ℕ → A → ℕ × A) (arg : A)
    → foreach_entry es cb arg ≡ call_each cb (contents es) arg
unfolding foreach_entry contents call_each
foreach_entry-contents [] cb arg = refl
foreach_entry-contents (e ∷ es) cb arg = elim (Bool-cases (entry_is_empty e.hash)) [
  | inl h ↦ rw h (foreach_entry-contents es cb arg)
  | inr h ↦ rw h (rw (foreach_entry-contents es cb (cb e.key e.value arg).1) refl)
]

length-contents : (es : List Entry) → length (contents es) ≡ live_count es
unfolding contents live_count
length-contents [] = refl
length-contents (e ∷ es) = elim (Bool-cases (entry_is_empty e.hash)) [
  | inl h ↦ rw h (omega (arith, length-contents es, live-eq_zero e h))
  | inr h ↦ rw h (omega (arith, length-contents es, live-eq_one e h))
]

-- On a valid table `hm_rp_foreach` calls back for the key and the value of each slot in use, in the
-- order of the slots, until the callback returns a number other than 0, which it returns too; and
-- `hm_rp_count` is the number of these pairs.
pub hm_rp_foreach-call_each :
    {A : Type 0} (m : Hashmap) (cb : ℕ → ℕ → A → ℕ × A) (arg : A)
    → IsValid m
    → (hm_rp_foreach m cb arg ≡ call_each cb (contents m.entries) arg)
      × (hm_rp_count m ≡ length (contents m.entries))
unfolding hm_rp_foreach hm_rp_count
hm_rp_foreach-call_each m cb arg v =
    (foreach_entry-contents m.entries cb arg, v.counted ∙ sym (length-contents m.entries))

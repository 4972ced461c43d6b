-- ===== src/Tree3/Midpoint.antt =====
-- Proofs about src/engines-experimental/tree3.cc: the split key of a full leaf and a new key lies
-- among their keys, and not all of them are on one side of it.
use native.Mathlib.Decide.{ℕ_discrete}
use pmemkv.Base.{
  ℕ, suc, ◌≡◌, ◌≢◌, ◌<◌, ◌∙◌, ◌⊎◌, refl, sym, ap, true, false, List, [], ◌∷◌, ◌++◌, Bytes, length,
  get_or, length-append, get_or-append, arith, inl, inr, ==_iff,
}
use pmemkv.Tree3.{before}
use pmemkv.Tree3.Filling.{IsLeafNode}
use pmemkv.Tree3.Leaves.{
  Memory, KvLeafNode, leaf_keys, leaf_keys_midpoint, hash_at, key_at, split_key_of, sort,
}
use pmemkv.Tree3.Nodes.Order.{before_irrefl, same_iff}
use pmemkv.Tree3.Slots.{matches}
use pmemkv.Tree3.Sorting.{
  All, AllDifferent, All-sort, get_or-All, sort_above, above_or_none, length-sort,
}

get_or-append_last : (ks : List Bytes) (k : Bytes) → get_or (ks ++ k ∷ []) (length ks) [] ≡ k
get_or-append_last [] k = refl
get_or-append_last (j ∷ ks) k = get_or-append_last ks k

All-of_pointwise :
    (P : Bytes → Type 0) (ks : List Bytes)
    → ((i : ℕ) → i < length ks → P (get_or ks i []))
    → All P ks
All-of_pointwise P [] f = tt
All-of_pointwise P (k ∷ ks) f =
    (f 0 (omega arith), All-of_pointwise P ks (λ i h. f (suc i) (omega arith)))

AllDifferent-of_pointwise :
    (ks : List Bytes)
    → ((i j : ℕ) → i < j → j < length ks → get_or ks i [] ≢ get_or ks j [])
    → AllDifferent ks
AllDifferent-of_pointwise [] f = tt
AllDifferent-of_pointwise (k ∷ ks) f = (
  All-of_pointwise (λ j. k ≢ j) ks (λ i h. f 0 (suc i) (omega arith) (omega arith)),
  AllDifferent-of_pointwise ks (λ i j h l. f (suc i) (suc j) (omega arith) (omega arith)),
)

module _ (ph : Bytes → ℕ) (ph-ne-zero : (k : Bytes) → ph k ≢ 0) (mem : Memory) (n : KvLeafNode)
    (v : IsLeafNode ph ph-ne-zero mem n) (key : Bytes)
    (full : (j : ℕ) → j < leaf_keys → hash_at n j ≢ 0)
    (fresh : (j : ℕ) → matches ph ph-ne-zero n j key ≡ false) where
  abbrev keys : List Bytes
  keys = n.keys ++ key ∷ []

  keys_length : length keys ≡ suc leaf_keys
  keys_length = omega (arith, length-append n.keys (key ∷ []), v.keys_length)

  -- A key at an index is one of the leaf's, or the new one at the end.
  key_cases :
      (i : ℕ)
      → i < suc leaf_keys
      → ((i < leaf_keys) × (get_or keys i [] ≡ key_at n i))
        ⊎ ((i ≡ leaf_keys) × (get_or keys i [] ≡ key))
  key_cases i h = elim (ℕ_discrete i leaf_keys) [
    | yes e ↦ inr (e, rw (e, ← v.keys_length) (get_or-append_last n.keys key))
    | no e ↦
        let l : i < leaf_keys = omega arith in
        inl (l, get_or-append n.keys (key ∷ []) i [] (rw v.keys_length l))
  ]

  -- Every slot of the leaf matches its own key.
  match_as :
      (i : ℕ) (k : Bytes) → i < leaf_keys → key_at n i ≡ k → matches ph ph-ne-zero n i k ≡ true
  match_as i k h e =
      rw
        (
          (==_iff (hash_at n i) (ph k)).1 (v.hashed i (full i h) ∙ ap ph e),
          (same_iff (key_at n i) k).1 e,
        )
        refl

  key_new : (i : ℕ) → i < leaf_keys → key_at n i ≢ key
  key_new i h e = let a = match_as i key h e in let b = fresh i in cc

  different : (i j : ℕ) → i < j → j < length keys → get_or keys i [] ≢ get_or keys j []
  different i j h l e = elim (key_cases i (omega (arith, keys_length))) [
    | inl (a, p) ↦ elim (key_cases j (omega (arith, keys_length))) [
      | inl (b, r) ↦
          let m = match_as j (key_at n i) b (sym r ∙ sym e ∙ p) in
          absurd (omega (arith, v.distinct i j (key_at n i) (match_as i _ a refl) m))
      | inr (b, r) ↦ absurd (key_new i a (sym p ∙ e ∙ r))
    ]
    | inr (a, p) ↦ absurd (omega (arith, keys_length))
  ]

  all_different : AllDifferent keys
  all_different = AllDifferent-of_pointwise keys different

  abbrev pub split_key : Bytes
  split_key = split_key_of n key

  index_in_range : leaf_keys_midpoint < length (sort keys)
  index_in_range = rw (length-sort keys, keys_length) (omega arith)

  -- What holds of all keys holds of the split key.
  pub split_key_among :
      (P : Bytes → Type 0) → ((i : ℕ) → i < leaf_keys → P (key_at n i)) → P key → P split_key
  unfolding split_key_of
  split_key_among P f p = get_or-All P (sort keys) leaf_keys_midpoint index_in_range (
      All-sort P keys (
        All-of_pointwise P keys (λ i h. elim (key_cases i (omega (arith, keys_length))) [
          | inl (a, e) ↦ rw e (f i a)
          | inr (a, e) ↦ rw e p
        ])))

  -- A key above the split key is the new one or one of the leaf's.
  pub above_split_key :
      ((i : ℕ) × (i < leaf_keys) × (before split_key (key_at n i) ≡ true))
      ⊎ (before split_key key ≡ true)
  unfolding split_key_of
  above_split_key = elim (above_or_none split_key keys) [
    | inl (j, l, b) ↦ elim (key_cases j (omega (arith, keys_length))) [
      | inl (a, e) ↦ inl (j, a, rw e at b)
      | inr (a, e) ↦ inr (rw e at b)
    ]
    | inr a ↦
        absurd (sort_above keys leaf_keys_midpoint all_different (omega (arith, keys_length)) a)
  ]

  -- The split key is the new one or one of the leaf's.
  pub split_key_in :
      ((i : ℕ) × (i < leaf_keys) × (before split_key (key_at n i) ≡ false))
      ⊎ (before split_key key ≡ false)
  split_key_in =
      split_key_among
        (λ k.
          ((i : ℕ) × (i < leaf_keys) × (before k (key_at n i) ≡ false)) ⊎ (before k key ≡ false))
        (λ i h. inl (i, h, before_irrefl (key_at n i))) (inr (before_irrefl key))

-- ===== src/Tree3/Sorting.antt =====
-- Proofs about src/engines-experimental/tree3.cc: the key at the midpoint of a full leaf's keys and
-- a new key, all of them different.
use pmemkv.Base.{
  ℕ, zero, suc, ◌≡◌, ◌≢◌, ◌<◌, ◌∙◌, ◌⊎◌, refl, ap, true, false, List, [], ◌∷◌, Bytes, length,
  get_or, arith, Bool-cases, inl, inr,
}
use pmemkv.Tree3.{before}
use pmemkv.Tree3.Leaves.{insert_sorted, sort}
use pmemkv.Tree3.Nodes.Order.{before_trans, eq_of_before}

-- every key of a list satisfies `P`
abbrev pub All : (Bytes → Type 0) → List Bytes → Type 0
All P [] = Unit
All P (k ∷ ks) = P k × All P ks

abbrev pub AllDifferent : List Bytes → Type 0
AllDifferent [] = Unit
AllDifferent (k ∷ ks) = All (λ j. k ≢ j) ks × AllDifferent ks

abbrev pub Ascends : List Bytes → Type 0
Ascends [] = Unit
Ascends (k ∷ ks) = All (λ j. before k j ≡ true) ks × Ascends ks

All-imp :
    (P Q : Bytes → Type 0) → ((k : Bytes) → P k → Q k) → (ks : List Bytes) → All P ks → All Q ks
All-imp P Q f [] a = tt
All-imp P Q f (k ∷ ks) a = (f k a.0, All-imp P Q f ks a.1)

All-insert_sorted :
    (P : Bytes → Type 0) (k : Bytes) (ks : List Bytes) → P k → All P ks → All P (insert_sorted k ks)
unfolding insert_sorted
All-insert_sorted P k [] p a = (p, tt)
All-insert_sorted P k (j ∷ js) p a = elim (Bool-cases (before j k)) [
  | inl h ↦ rw h (a.0, All-insert_sorted P k js p a.1)
  | inr h ↦ rw h (p, a)
]

pub All-sort : (P : Bytes → Type 0) (ks : List Bytes) → All P ks → All P (sort ks)
unfolding sort
All-sort P [] a = tt
All-sort P (k ∷ ks) a = All-insert_sorted P k (sort ks) a.0 (All-sort P ks a.1)

insert_sorted-Ascends :
    (k : Bytes) (ks : List Bytes) → All (λ j. k ≢ j) ks → Ascends ks → Ascends (insert_sorted k ks)
unfolding insert_sorted
insert_sorted-Ascends k [] d a = (tt, tt)
insert_sorted-Ascends k (j ∷ js) d a = elim (Bool-cases (before j k)) [
  | inl h ↦
      rw h
        (All-insert_sorted (λ i. before j i ≡ true) k js h a.0, insert_sorted-Ascends k js d.1 a.1)
  | inr h ↦ elim (Bool-cases (before k j)) [
    | inl g ↦ rw h (
      (
        g,
        All-imp (λ i. before j i ≡ true) (λ i. before k i ≡ true) (λ i u. before_trans k j i g u) js
            a.0,
      ),
      a,
    )
    | inr g ↦ absurd (d.0 (eq_of_before k j g h))
  ]
]

pub sort-Ascends : (ks : List Bytes) → AllDifferent ks → Ascends (sort ks)
unfolding sort
sort-Ascends [] d = tt
sort-Ascends (k ∷ ks) d =
    insert_sorted-Ascends k (sort ks) (All-sort (λ j. k ≢ j) ks d.0) (sort-Ascends ks d.1)

length-insert_sorted : (k : Bytes) (ks : List Bytes) → length (insert_sorted k ks) ≡ suc (length ks)
unfolding insert_sorted
length-insert_sorted k [] = refl
length-insert_sorted k (j ∷ js) = elim (Bool-cases (before j k)) [
  | inl h ↦ rw h (ap suc (length-insert_sorted k js))
  | inr h ↦ rw h refl
]

pub length-sort : (ks : List Bytes) → length (sort ks) ≡ length ks
unfolding sort
length-sort [] = refl
length-sort (k ∷ ks) = length-insert_sorted k (sort ks) ∙ ap suc (length-sort ks)

pub get_or-All :
    (P : Bytes → Type 0) (ks : List Bytes) (i : ℕ) → i < length ks → All P ks → P (get_or ks i [])
get_or-All P [] i h a = absurd (omega arith)
get_or-All P (k ∷ ks) zero h a = a.0
get_or-All P (k ∷ ks) (suc i) h a = get_or-All P ks i (omega arith) a.1

Ascends-before :
    (ks : List Bytes) (i j : ℕ)
    → i < j
    → j < length ks
    → Ascends ks
    → before (get_or ks i []) (get_or ks j []) ≡ true
Ascends-before [] i j h l a = absurd (omega arith)
Ascends-before (k ∷ ks) i zero h l a = absurd (omega arith)
Ascends-before (k ∷ ks) zero (suc j) h l a =
    get_or-All (λ i. before k i ≡ true) ks j (omega arith) a.0
Ascends-before (k ∷ ks) (suc i) (suc j) h l a =
    Ascends-before ks i j (omega arith) (omega arith) a.1

-- Not every key is at most the one at a position before the last one.
pub sort_above :
    (ks : List Bytes) (i : ℕ)
    → AllDifferent ks
    → suc i < length ks
    → All (λ k. before (get_or (sort ks) i []) k ≡ false) ks
    → ⊥
sort_above ks i d h a =
    let s = get_or (sort ks) i [] in
    let l : suc i < length (sort ks) = rw (length-sort ks) h in
    let last =
      get_or-All (λ k. before s k ≡ false) (sort ks) (suc i) l
        (All-sort (λ k. before s k ≡ false) ks a) in
    let up = Ascends-before (sort ks) i (suc i) (omega arith) l (sort-Ascends ks d) in cc

-- the search for a key above another one
pub above_or_none :
    (s : Bytes) (ks : List Bytes)
    → ((j : ℕ) × (j < length ks) × (before s (get_or ks j []) ≡ true))
      ⊎ All (λ k. before s k ≡ false) ks
above_or_none s [] = inr tt
above_or_none s (k ∷ ks) = elim (Bool-cases (before s k)) [
  | inl h ↦ inl (0, omega arith, h)
  | inr h ↦ elim (above_or_none s ks) [
    | inl (j, l, b) ↦ inl (suc j, omega (arith, l), b)
    | inr a ↦ inr (h, a)
  ]
]

-- ===== src/Tree3/Unused.antt =====
-- Proofs about src/engines-experimental/tree3.cc: the unused leaves, and the allocation of a leaf.
use native.Mathlib.Decide.{ℕ_discrete}
use pmemkv.Base.{
  ℕ, ◌≡◌, ◌≢◌, ◌⊎◌, refl, ap, List, [], ◌∷◌, ◌++◌, none, length, get_or, get_or-append,
  length-append, length-replicate, get_or-replicate, ◌<◌, ◌∙◌, arith, inl, inr,
}
use pmemkv.Tree3.Leaves.{KvSlot, KvLeaf, Memory, leaf_keys, no_leaf, slot_at, allocate}
use pmemkv.Tree3.Slots.{IsLeaf, IsEmpty}

abbrev pub AllOther : ℕ → List ℕ → Type 0
AllOther leaf [] = Unit
AllOther leaf (l ∷ ls) = (leaf ≢ l) × AllOther leaf ls

-- different leaves of the memory that are not in use
abbrev pub Unused : Memory → (ℕ → Type 0) → List ℕ → Type 0
Unused mem InUse [] = Unit
Unused mem InUse (l ∷ ls) = IsLeaf mem l × (InUse l → ⊥) × AllOther l ls × Unused mem InUse ls

pub Unused-map :
    (mem mem' : Memory) (InUse InUse' : ℕ → Type 0) (ls : List ℕ)
    → ((l : ℕ) → IsLeaf mem l → IsLeaf mem' l)
    → ((l : ℕ) → InUse' l → InUse l)
    → Unused mem InUse ls
    → Unused mem' InUse' ls
Unused-map mem mem' InUse InUse' [] f g u = tt
Unused-map mem mem' InUse InUse' (l ∷ ls) f g (a, b, c, d) =
    (f l a, (λ x. b (g l x)), c, Unused-map mem mem' InUse InUse' ls f g d)

Unused-taken :
    (mem : Memory) (InUse : ℕ → Type 0) (leaf : ℕ) (ls : List ℕ)
    → AllOther leaf ls
    → Unused mem InUse ls
    → Unused mem (λ l. InUse l ⊎ (leaf ≡ l)) ls
Unused-taken mem InUse leaf [] o u = tt
Unused-taken mem InUse leaf (l ∷ ls) (n, o) (a, b, c, d) =
    (a, (λ x. elim x [ inl y ↦ b y | inr e ↦ n e ]), c, Unused-taken mem InUse leaf ls o d)

-- Every other leaf than those in use is empty.
abbrev pub OthersEmpty : Memory → (ℕ → Type 0) → Type 0
OthersEmpty mem InUse = (l : ℕ) → l < length mem → IsLeaf mem l × (InUse l ⊎ IsEmpty mem l)

-- The leaves that are not in use are empty, and some of them are known to be unused.
pub record IsSpare (mem : Memory) (InUse : ℕ → Type 0) (ls : List ℕ) : Type 0 where
  pub unused : Unused mem InUse ls
  pub others : OthersEmpty mem InUse

-- What the allocation of a leaf gives.
pub record IsAllocated (mem : Memory) (InUse : ℕ → Type 0) (r : Memory × List ℕ × ℕ) : Type 0 where
  pub leaf : IsLeaf r.0 r.2
  pub not_in_use : InUse r.2 → ⊥
  pub unused : Unused r.0 (λ l. InUse l ⊎ (r.2 ≡ l)) r.1
  pub leaves : (l : ℕ) → IsLeaf mem l → IsLeaf r.0 l
  pub slots : (l j : ℕ) → IsLeaf mem l → slot_at r.0 l j ≡ slot_at mem l j
  pub empty : IsEmpty r.0 r.2
  pub others : OthersEmpty r.0 InUse

appended_leaf : (mem : Memory) (d : KvLeaf) → get_or (mem ++ no_leaf ∷ []) (length mem) d ≡ no_leaf
appended_leaf [] d = refl
appended_leaf (x ∷ mem) d = appended_leaf mem d

appended : (mem : Memory) (l : ℕ) → IsLeaf mem l → IsLeaf (mem ++ no_leaf ∷ []) l
appended mem l w = record {
  allocated = omega (arith, w.allocated, length-append mem (no_leaf ∷ []));
  slots_length = rw (get_or-append mem (no_leaf ∷ []) l no_leaf w.allocated) w.slots_length;
}

appended_last : (mem : Memory) → IsLeaf (mem ++ no_leaf ∷ []) (length mem)
appended_last mem = record {
  allocated = omega (arith, length-append mem (no_leaf ∷ []));
  slots_length = rw (appended_leaf mem no_leaf) (length-replicate {A = KvSlot} leaf_keys none);
}

last_leaf_cleared : (mem : Memory) → IsEmpty (mem ++ no_leaf ∷ []) (length mem)
last_leaf_cleared mem j =
    rw (appended_leaf mem no_leaf) (get_or-replicate {A = KvSlot} leaf_keys j none)

appended_slot :
    (mem : Memory) (l j : ℕ) → l < length mem → slot_at (mem ++ no_leaf ∷ []) l j ≡ slot_at mem l j
appended_slot mem l j h =
    ap (λ (slots : KvLeaf). get_or slots j none) (get_or-append mem (no_leaf ∷ []) l no_leaf h)

pub allocate-IsAllocated :
    (mem : Memory) (InUse : ℕ → Type 0) (ls : List ℕ)
    → ((l : ℕ) → InUse l → IsLeaf mem l)
    → IsSpare mem InUse ls
    → IsAllocated mem InUse (allocate mem ls)
unfolding allocate
allocate-IsAllocated mem InUse [] used u = record {
  leaf = appended_last mem;
  not_in_use = λ x. omega (arith, (used (length mem) x).allocated);
  unused = tt;
  empty = last_leaf_cleared mem;
  others = λ l h. elim (ℕ_discrete l (length mem)) [
    | yes e ↦ rw e (appended_last mem, inr (last_leaf_cleared mem))
    | no n ↦
        let i : l < length mem = omega (arith, length-append mem (no_leaf ∷ [])) in
        let (w, o) = u.others l i in
        (
          appended mem l w,
          elim o [ inl x ↦ inl x | inr x ↦ inr (λ j. appended_slot mem l j i ∙ x j) ],
        )
  ];
  leaves = appended mem;
  slots = λ l j w. appended_slot mem l j w.allocated;
}
allocate-IsAllocated mem InUse (leaf ∷ ls) used u =
    let (a, b, c, d) = u.unused in
    record {
      leaf = a;
      not_in_use = b;
      unused = Unused-taken mem InUse leaf ls c d;
      leaves = λ l w. w;
      slots = λ l j w. refl;
      empty = elim (u.others leaf a.allocated).1 [ inl x ↦ absurd (b x) | inr x ↦ x ];
      others = u.others;
    }

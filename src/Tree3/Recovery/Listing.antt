-- ===== src/Tree3/Recovery/Listing.antt =====
-- Proofs about src/engines-experimental/tree3.cc: the loop of `Recover` over the persistent leaves.
use native.Mathlib.Decide.{ℕ_discrete}
use pmemkv.Base.{
  ℕ, zero, suc, ◌≡◌, ◌≢◌, ◌<◌, ◌≤◌, ◌∙◌, ◌⊎◌, refl, List, [], ◌∷◌, ◌++◌, none, some, Bytes, length,
  arith, inl, inr, Bool-cases,
}
use pmemkv.Tree3.{before}
use pmemkv.Tree3.Leaves.{Memory}
use pmemkv.Tree3.Rebuilding.{max_keys}
use pmemkv.Tree3.Recovery.{RecoveredLeaf, recover_leaves, insert_by_max, sort_by_max}
use pmemkv.Tree3.Recovery.Origin.{read, read_leaf_lem}
use pmemkv.Tree3.Slots.{IsLeaf, IsEmpty}
use pmemkv.Tree3.Sorting.{All, AllDifferent}
use pmemkv.Tree3.Unused.{AllOther, Unused}

-- every leaf of a list satisfies `P`
abbrev pub Each : (RecoveredLeaf → Type 0) → List RecoveredLeaf → Type 0
Each P [] = Unit
Each P (r ∷ rs) = P r × Each P rs

-- a leaf of a list satisfies `P`
abbrev pub Has : (RecoveredLeaf → Type 0) → List RecoveredLeaf → Type 0
Has P [] = ⊥
Has P (r ∷ rs) = P r ⊎ Has P rs

-- What a leaf of a list shows whichever it is.
pub Has-const : (C : Type 0) (rs : List RecoveredLeaf) → Has (λ _. C) rs → C
Has-const C [] h = absurd h
Has-const C (r ∷ rs) (inl c) = c
Has-const C (r ∷ rs) (inr h) = Has-const C rs h

module _ (P Q : RecoveredLeaf → Type 0) where
  pub Each-map :
      ((r : RecoveredLeaf) → P r → Q r) → (rs : List RecoveredLeaf) → Each P rs → Each Q rs
  Each-map f [] e = tt
  Each-map f (r ∷ rs) (p, e) = (f r p, Each-map f rs e)

  -- The leaf that is known to be in the list has what every leaf of it has.
  pub Has-map :
      (R : RecoveredLeaf → Type 0)
      → ((r : RecoveredLeaf) → P r → Q r → R r)
      → (rs : List RecoveredLeaf) → Each P rs
      → Has Q rs
      → Has R rs
  Has-map R f [] e h = h
  Has-map R f (r ∷ rs) (p, e) (inl q) = inl (f r p q)
  Has-map R f (r ∷ rs) (p, e) (inr h) = inr (Has-map R f rs e h)

  pub Each-both : (rs : List RecoveredLeaf) → Each P rs → Each Q rs → Each (λ r. P r × Q r) rs
  Each-both [] e f = tt
  Each-both (r ∷ rs) (p, e) (q, f) = ((p, q), Each-both rs e f)

module _ (P : RecoveredLeaf → Type 0) where
  Each-snoc :
      (rs : List RecoveredLeaf) (r : RecoveredLeaf) → Each P rs → P r → Each P (rs ++ r ∷ [])
  Each-snoc [] r e p = (p, tt)
  Each-snoc (x ∷ rs) r (q, e) p = (q, Each-snoc rs r e p)

  Has-snoc : (rs : List RecoveredLeaf) (r : RecoveredLeaf) → Has P rs → Has P (rs ++ r ∷ [])
  Has-snoc [] r h = absurd h
  Has-snoc (x ∷ rs) r (inl p) = inl p
  Has-snoc (x ∷ rs) r (inr h) = inr (Has-snoc rs r h)

  Has-last : (rs : List RecoveredLeaf) (r : RecoveredLeaf) → P r → Has P (rs ++ r ∷ [])
  Has-last [] r p = inl p
  Has-last (x ∷ rs) r p = inr (Has-last rs r p)

  Each-insert_by_max :
      (l : RecoveredLeaf) (rs : List RecoveredLeaf) → P l → Each P rs → Each P (insert_by_max l rs)
  unfolding insert_by_max
  Each-insert_by_max l [] p e = (p, tt)
  Each-insert_by_max l (m ∷ ms) p (q, e) = elim (Bool-cases (before m.max_key l.max_key)) [
    | inl h ↦ rw h (q, Each-insert_by_max l ms p e)
    | inr h ↦ rw h (p, (q, e))
  ]

  pub Each-sort_by_max : (rs : List RecoveredLeaf) → Each P rs → Each P (sort_by_max rs)
  unfolding sort_by_max
  Each-sort_by_max [] e = tt
  Each-sort_by_max (l ∷ ls) (p, e) = Each-insert_by_max l (sort_by_max ls) p (Each-sort_by_max ls e)

  Has-insert_by_max :
      (l : RecoveredLeaf) (rs : List RecoveredLeaf) → P l ⊎ Has P rs → Has P (insert_by_max l rs)
  unfolding insert_by_max
  Has-insert_by_max l [] h = h
  Has-insert_by_max l (m ∷ ms) h = elim (Bool-cases (before m.max_key l.max_key)) [
    | inl b ↦ rw b (elim h [
      | inl p ↦ inr (Has-insert_by_max l ms (inl p))
      | inr x ↦ elim x [ inl q ↦ inl q | inr y ↦ inr (Has-insert_by_max l ms (inr y)) ]
    ])
    | inr b ↦ rw b h
  ]

  pub Has-sort_by_max : (rs : List RecoveredLeaf) → Has P rs → Has P (sort_by_max rs)
  unfolding sort_by_max
  Has-sort_by_max [] h = absurd h
  Has-sort_by_max (l ∷ ls) (inl p) = Has-insert_by_max l (sort_by_max ls) (inl p)
  Has-sort_by_max (l ∷ ls) (inr h) =
      Has-insert_by_max l (sort_by_max ls) (inr (Has-sort_by_max ls h))

-- every leaf of a list is `k` or behind it
abbrev From : ℕ → List ℕ → Type 0
From k [] = Unit
From k (l ∷ ls) = (k ≤ l) × From k ls

From-suc : (k : ℕ) (ls : List ℕ) → From (suc k) ls → From k ls
From-suc k [] f = tt
From-suc k (l ∷ ls) (a, f) = (omega (arith, a), From-suc k ls f)

From-AllOther : (k : ℕ) (ls : List ℕ) → From (suc k) ls → AllOther k ls
From-AllOther k [] f = tt
From-AllOther k (l ∷ ls) (a, f) = ((λ e. omega (arith, e, a)), From-AllOther k ls f)

snoc-AllDifferent :
    (rs : List RecoveredLeaf) (r : RecoveredLeaf)
    → AllDifferent (max_keys rs)
    → Each (λ x. x.max_key ≢ r.max_key) rs
    → AllDifferent (max_keys (rs ++ r ∷ []))
snoc-AllDifferent [] r d e = (tt, tt)
snoc-AllDifferent (x ∷ rs) r (a, d) (n, e) = (others rs a, snoc-AllDifferent rs r d e)
  where
    others :
        (ys : List RecoveredLeaf)
        → All (λ j. x.max_key ≢ j) (max_keys ys)
        → All (λ j. x.max_key ≢ j) (max_keys (ys ++ r ∷ []))
    others [] b = (n, tt)
    others (y ∷ ys) (m, b) = (m, others ys b)

module _ (mem : Memory) (P : RecoveredLeaf → Type 0) where
  -- The leaves from `k` on are listed: those with an entry by their nodes, and the empty ones.
  pub record IsListing (k : ℕ) (prealloc : List ℕ) (leaves : List RecoveredLeaf) : Type 0 where
    pub each : Each (λ r. P r × (k ≤ r.leafnode.leaf)) leaves
    pub different : AllDifferent (max_keys leaves)
    pub complete :
        (l : ℕ) → k ≤ l → l < length mem → IsEmpty mem l ⊎ Has (λ r. r.leafnode.leaf ≡ l) leaves
    pub empty : Unused mem (λ l. IsEmpty mem l → ⊥) prealloc
    pub from : From k prealloc

  -- a leaf without an entry, or one that is read as it should be
  abbrev pub Known : ℕ → Type 0
  Known l =
      (((read mem l).1 ≡ none) × IsEmpty mem l)
      ⊎ ((key : Bytes) × ((read mem l).1 ≡ some key)
          × P (record { leafnode = (read mem l).0; max_key = key }))

  skipped :
      (k : ℕ) (prealloc : List ℕ) (leaves : List RecoveredLeaf)
      → IsListing (suc k) prealloc leaves
      → IsLeaf mem k
      → IsEmpty mem k
      → IsListing k (k ∷ prealloc) leaves
  skipped k prealloc leaves w a e = record {
    each =
        Each-map (λ r. P r × (suc k ≤ r.leafnode.leaf)) (λ r. P r × (k ≤ r.leafnode.leaf))
          (λ r x. (x.0, omega (arith, x.1))) leaves w.each;
    different = w.different;
    complete = λ l i j. elim (ℕ_discrete k l) [
      | yes s ↦ inl (rw (← s) e)
      | no n ↦ w.complete l (omega arith) j
    ];
    empty = (a, (λ f. f e), From-AllOther k prealloc w.from, w.empty);
    from = (omega arith, From-suc k prealloc w.from);
  }

  added :
      (k : ℕ) (prealloc : List ℕ) (leaves : List RecoveredLeaf) (r : RecoveredLeaf)
      → ((a b : RecoveredLeaf)
          → P a
          → P b
          → a.max_key ≡ b.max_key
          → a.leafnode.leaf ≡ b.leafnode.leaf)
      → IsListing (suc k) prealloc leaves
      → P r
      → r.leafnode.leaf ≡ k
      → IsListing k prealloc (leaves ++ r ∷ [])
  added k prealloc leaves r own w p e = record {
    each =
        Each-snoc (λ x. P x × (k ≤ x.leafnode.leaf)) leaves r
          (Each-map (λ x. P x × (suc k ≤ x.leafnode.leaf)) (λ x. P x × (k ≤ x.leafnode.leaf))
            (λ x y. (y.0, omega (arith, y.1))) leaves w.each)
          (p, omega arith);
    different = snoc-AllDifferent leaves r w.different (
        Each-map (λ x. P x × (suc k ≤ x.leafnode.leaf)) (λ x. x.max_key ≢ r.max_key)
          (λ x y same. omega (arith, own x r y.0 p same, y.1, e)) leaves w.each);
    complete = λ l i j. elim (ℕ_discrete k l) [
      | yes s ↦ inr (Has-last (λ x. x.leafnode.leaf ≡ l) leaves r (e ∙ s))
      | no n ↦ elim (w.complete l (omega arith) j) [
        | inl x ↦ inl x
        | inr x ↦ inr (Has-snoc (λ x. x.leafnode.leaf ≡ l) leaves r x)
      ]
    ];
    empty = w.empty;
    from = From-suc k prealloc w.from;
  }

  recover_leaves-none :
      (leaf : ℕ) (prealloc : List ℕ) (leaves : List RecoveredLeaf)
      → (read mem leaf).1 ≡ none
      → recover_leaves (suc leaf) mem prealloc leaves
        ≡ recover_leaves leaf mem (leaf ∷ prealloc) leaves
  unfolding recover_leaves
  recover_leaves-none leaf prealloc leaves e = rw (e, recover_leaves) refl

  recover_leaves-some :
      (leaf : ℕ) (prealloc : List ℕ) (leaves : List RecoveredLeaf) (key : Bytes)
      → (read mem leaf).1 ≡ some key
      → recover_leaves (suc leaf) mem prealloc leaves
        ≡ recover_leaves leaf mem prealloc
            (leaves ++ record { leafnode = (read mem leaf).0; max_key = key } ∷ [])
  unfolding recover_leaves
  recover_leaves-some leaf prealloc leaves key e = rw (e, recover_leaves) refl

  -- The loop lists all leaves, each of them once.
  pub recover_leaves-IsListing :
      (k : ℕ) (prealloc : List ℕ) (leaves : List RecoveredLeaf)
      → ((l : ℕ) → l < length mem → IsLeaf mem l × Known l)
      → ((a b : RecoveredLeaf)
          → P a
          → P b
          → a.max_key ≡ b.max_key
          → a.leafnode.leaf ≡ b.leafnode.leaf)
      → k ≤ length mem
      → IsListing k prealloc leaves
      → let r = recover_leaves k mem prealloc leaves in IsListing 0 r.0 r.1
  unfolding recover_leaves
  recover_leaves-IsListing zero prealloc leaves known own h w = w
  recover_leaves-IsListing (suc k) prealloc leaves known own h w = elim (known k (omega arith)).1 [
    | inl (e, empty) ↦ rw (recover_leaves-none k prealloc leaves e) (
        recover_leaves-IsListing k (k ∷ prealloc) leaves known own (omega arith)
          (skipped k prealloc leaves w (known k (omega arith)).0 empty))
    | inr (key, e, p) ↦
        let r : RecoveredLeaf = record { leafnode = (read mem k).0; max_key = key } in
        rw (recover_leaves-some k prealloc leaves key e) (
          recover_leaves-IsListing k prealloc (leaves ++ r ∷ []) known own (omega arith)
            (added k prealloc leaves r own w p (read_leaf_lem mem k)))
  ]

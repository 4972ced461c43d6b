-- ===== src/Tree3/Recovery/Ranges.antt =====
-- Proofs about src/engines-experimental/tree3.cc: the leaves of a valid tree, read and in the order
-- of their highest keys, have the ranges and the values of that tree.
use pmemkv.Base.{
  ℕ, ◌≡◌, ◌≢◌, ◌∙◌, refl, sym, ap, List, [], ◌∷◌, some, Bytes, inl, inr, true, false, Bool-cases,
}
use pmemkv.Tree3.{before, at_most}
use pmemkv.Tree3.Leaves.{Memory, KvLeafNode, hash_at, key_at}
use pmemkv.Tree3.Nodes.{Top}
use pmemkv.Tree3.Nodes.Order.{
  Bound, above, at_most-eq, before_irrefl, before_trans, at_most_of_before,
}
use pmemkv.Tree3.Rebuilding.{leaf_for, IsAscending}
use pmemkv.Tree3.Recovery.{RecoveredLeaf}
use pmemkv.Tree3.Recovery.Finding.{
  IsFrom, place_between, place_of_used, place-IsFrom, IsFrom-different,
}
use pmemkv.Tree3.Recovery.Listing.{Each, Has, Each-map, Each-both, Has-map, Has-const}
use pmemkv.Tree3.Validity.{TreeValid, IsInRange, place}

ascending_above :
    (m : Bytes) (x : RecoveredLeaf) (xs : List RecoveredLeaf)
    → IsAscending (some m) x.max_key xs
    → Each (λ r. before m r.max_key ≡ true) (x ∷ xs)
ascending_above m x [] a = (a, tt)
ascending_above m x (y ∷ ys) (less, a) = (
  less,
  Each-map (λ r. before x.max_key r.max_key ≡ true) (λ r. before m r.max_key ≡ true)
      (λ r h. before_trans m x.max_key r.max_key less h) (y ∷ ys)
      (ascending_above x.max_key y ys a),
)

-- The leaf for a key is one of the list.
pub leaf_for-Each :
    (P : RecoveredLeaf → Type 0) (lo : Bound) (x : RecoveredLeaf) (xs : List RecoveredLeaf)
    (q : Bytes)
    → Each P (x ∷ xs)
    → (y : RecoveredLeaf) × P y × ((leaf_for lo x.leafnode x.max_key xs q).2 ≡ y.leafnode)
leaf_for-Each P lo x [] q (p, e) = (x, p, refl)
leaf_for-Each P lo x (y ∷ ys) q (p, e) = elim (Bool-cases (at_most q x.max_key)) [
  | inl h ↦ (x, p, rw h refl)
  | inr h ↦ let (z, pz, ez) = leaf_for-Each P (some x.max_key) y ys q e in (z, pz, rw h ez)
]

-- A leaf of the list is the one for its highest key.
pub leaf_for-Has :
    (xs : List RecoveredLeaf) (Q : RecoveredLeaf → Type 0) (lo : Bound) (x : RecoveredLeaf)
    → IsAscending lo x.max_key xs
    → Has Q (x ∷ xs)
    → (r : RecoveredLeaf) × Q r × ((leaf_for lo x.leafnode x.max_key xs r.max_key).2 ≡ r.leafnode)
leaf_for-Has [] Q lo x a (inl h) = (x, h, refl)
leaf_for-Has [] Q lo x a (inr h) = absurd h
leaf_for-Has (y ∷ ys) Q lo x a (inl h) =
    let e : at_most x.max_key x.max_key ≡ true =
      at_most-eq x.max_key x.max_key ∙ rw (before_irrefl x.max_key) refl in
    (x, h, rw e refl)
leaf_for-Has (y ∷ ys) Q lo x (less, a) (inr h) =
    let Behind : RecoveredLeaf → Type 0 = λ r. before x.max_key r.max_key ≡ true in
    let h' =
      Has-map Behind Q (λ r. Q r × Behind r) (λ r b p. (p, b)) (y ∷ ys)
        (ascending_above x.max_key y ys a) h in
    let (r, (p, b), e) = leaf_for-Has ys (λ r. Q r × Behind r) (some x.max_key) y a h' in
    let f : at_most r.max_key x.max_key ≡ false = at_most-eq r.max_key x.max_key ∙ rw b refl in
    (r, p, rw f e)

module _ (ph : Bytes → ℕ) (ph-ne-zero : (k : Bytes) → ph k ≢ 0) (mem : Memory) (t : Top KvLeafNode)
    (v : TreeValid ph ph-ne-zero mem t) where
  abbrev pub From : RecoveredLeaf → Type 0
  From = IsFrom ph ph-ne-zero mem t

  -- A leaf of the list with the range of a key and a highest key that is not below it shows that
  -- the leaf for the key has that range.
  pub leaf_for-place :
      (lo : Bound) (x : RecoveredLeaf) (xs : List RecoveredLeaf) (q : Bytes)
      → IsAscending lo x.max_key xs
      → Each From (x ∷ xs)
      → Has (λ r. (place t r.max_key ≡ place t q) × (at_most q r.max_key ≡ true)) (x ∷ xs)
      → (y : RecoveredLeaf) × From y
        × ((leaf_for lo x.leafnode x.max_key xs q).2 ≡ y.leafnode)
        × (place t y.max_key ≡ place t q)
  leaf_for-place lo x [] q a (f, fs) (inl (e, h)) = (x, f, refl, e)
  leaf_for-place lo x [] q a (f, fs) (inr h) = absurd h
  leaf_for-place lo x (y ∷ ys) q a (f, fs) (inl (e, h)) = (x, f, rw h refl, e)
  leaf_for-place lo x (y ∷ ys) q (less, a) (f, fs) (inr there) =
      elim (Bool-cases (at_most q x.max_key)) [
        | inl h ↦
            let Q : RecoveredLeaf → Type 0 =
              λ r. (place t r.max_key ≡ place t q) × (at_most q r.max_key ≡ true) in
            let s =
              Has-map (λ r. before x.max_key r.max_key ≡ true) Q
                (λ _. place t x.max_key ≡ place t q)
                (λ r b p.
                  place_between ph ph-ne-zero mem t v q x.max_key r.max_key (sym p.0) h
                    (at_most_of_before x.max_key r.max_key b)
                  ∙ p.0)
                (y ∷ ys) (ascending_above x.max_key y ys a) there in
            (x, f, rw h refl, Has-const (place t x.max_key ≡ place t q) (y ∷ ys) s)
        | inr h ↦
            let (z, fz, ez, pz) = leaf_for-place (some x.max_key) y ys q a fs there in
            (z, fz, rw h ez, pz)
      ]

  -- The keys in use of a leaf are behind the highest key of a leaf before it.
  used_above :
      (x y : RecoveredLeaf)
      → From x
      → From y
      → before x.max_key y.max_key ≡ true
      → (i : ℕ) → hash_at y.leafnode i ≢ 0
      → before x.max_key (key_at y.leafnode i) ≡ true
  used_above x y f g h i u =
      let w : hash_at (place t y.max_key).2 i ≢ 0 = λ z. u (g.agrees.hashes i ∙ z) in
      let k = key_at (place t y.max_key).2 i in
      elim (Bool-cases (before x.max_key k)) [
        | inl b ↦ rw (g.agrees.keys i w) b
        | inr b ↦ absurd (
            IsFrom-different ph ph-ne-zero mem t v x y f g h (
              place_between ph ph-ne-zero mem t v k x.max_key y.max_key
                (place_of_used ph ph-ne-zero mem t v y.max_key i w)
                (at_most-eq k x.max_key ∙ rw b refl) (at_most_of_before x.max_key y.max_key h)))
      ]

  used_at_most :
      (x : RecoveredLeaf)
      → From x
      → (i : ℕ) → hash_at x.leafnode i ≢ 0
      → at_most (key_at x.leafnode i) x.max_key ≡ true
  used_at_most x f i u =
      let w : hash_at (place t x.max_key).2 i ≢ 0 = λ z. u (f.agrees.hashes i ∙ z) in
      rw (f.agrees.keys i w) (f.highest i w)

  pub leaf_for-IsInRange :
      (lo : Bound) (x : RecoveredLeaf) (xs : List RecoveredLeaf) (q : Bytes)
      → IsAscending lo x.max_key xs
      → Each From (x ∷ xs)
      → ((i : ℕ) → hash_at x.leafnode i ≢ 0 → above lo (key_at x.leafnode i) ≡ true)
      → let p = leaf_for lo x.leafnode x.max_key xs q in IsInRange p.0 p.1 p.2
  leaf_for-IsInRange lo x [] q a (f, fs) low = λ i u. rw (low i u) refl
  leaf_for-IsInRange lo x (y ∷ ys) q (less, a) (f, fs) low =
      elim (Bool-cases (at_most q x.max_key)) [
        | inl h ↦ rw h (λ i u. rw (low i u, used_at_most x f i u) refl)
        | inr h ↦ rw h (
            leaf_for-IsInRange (some x.max_key) y ys q a fs
              (used_above x y f fs.0 (ascending_above x.max_key y ys a).0))
      ]

  -- The first leaf of a list is not that of a later one.
  not_later :
      (x y : RecoveredLeaf) (ys : List RecoveredLeaf) (q : Bytes)
      → IsAscending (some x.max_key) y.max_key ys
      → From x
      → Each From (y ∷ ys)
      → x.leafnode.leaf ≢ (leaf_for (some x.max_key) y.leafnode y.max_key ys q).2.leaf
  not_later x y ys q a f fs e =
      let Behind : RecoveredLeaf → Type 0 = λ r. before x.max_key r.max_key ≡ true in
      let both = Each-both From Behind (y ∷ ys) fs (ascending_above x.max_key y ys a) in
      let (z, (g, b), s) = leaf_for-Each (λ r. From r × Behind r) (some x.max_key) y ys q both in
      IsFrom-different ph ph-ne-zero mem t v x z f g b
        (place-IsFrom ph ph-ne-zero mem t v x z f g (e ∙ ap (λ (n : KvLeafNode). n.leaf) s))

  pub leaf_for-own :
      (lo : Bound) (x : RecoveredLeaf) (xs : List RecoveredLeaf) (q q' : Bytes)
      → IsAscending lo x.max_key xs
      → Each From (x ∷ xs)
      → (leaf_for lo x.leafnode x.max_key xs q).2.leaf
        ≡ (leaf_for lo x.leafnode x.max_key xs q').2.leaf
      → leaf_for lo x.leafnode x.max_key xs q ≡ leaf_for lo x.leafnode x.max_key xs q'
  leaf_for-own lo x [] q q' a fs = λ e. refl
  leaf_for-own lo x (y ∷ ys) q q' (less, a) (f, fs) = elim (Bool-cases (at_most q x.max_key)) [
    | inl h ↦ elim (Bool-cases (at_most q' x.max_key)) [
      | inl h' ↦ rw (h, h') (λ e. refl)
      | inr h' ↦ rw (h, h') (λ e. absurd (not_later x y ys q' a f fs e))
    ]
    | inr h ↦ elim (Bool-cases (at_most q' x.max_key)) [
      | inl h' ↦ rw (h, h') (λ e. absurd (not_later x y ys q a f fs (sym e)))
      | inr h' ↦ rw (h, h') (leaf_for-own (some x.max_key) y ys q q' a fs)
    ]
  ]

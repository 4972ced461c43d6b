-- ===== src/Tree3/Recovery/Restart.antt =====
-- Proofs about src/engines-experimental/tree3.cc: a restart, in which `Recover` makes the volatile
-- nodes from the persistent leaves.
use pmemkv.Base.{
  ℕ, ◌≡◌, ◌<◌, ◌≤◌, ◌∙◌, ◌⊎◌, refl, sym, ap, List, [], ◌∷◌, Option, none, some, Bytes, length,
  arith, inl, inr, true, false, Bool, Bool-cases, is_some,
}
use pmemkv.Tree3.Leaves.{Memory, KvLeafNode}
use pmemkv.Tree3.Methods.{Tree3}
use pmemkv.Tree3.Nodes.{Top}
use pmemkv.Tree3.Nodes.Growth.{TopOrdered}
use pmemkv.Tree3.Rebuilding.{
  leaf_for, IsAscending, recover_top-sort_by_max, sort_by_max-IsAscending,
}
use pmemkv.Tree3.Recovery.{
  RecoveredLeaf, recover_leaves, sort_by_max, recover_top, asserts_pass, recover,
}
use pmemkv.Tree3.Recovery.Finding.{leaf-IsFrom, read-Known}
use pmemkv.Tree3.Recovery.Listing.{
  Each, Has, Each-map, Each-sort_by_max, Has-sort_by_max, IsListing, recover_leaves-IsListing,
}
use pmemkv.Tree3.Recovery.Origin.{Agrees-IsLeafNode, read-IsEmpty, slot_fact, unused, used}
use pmemkv.Tree3.Recovery.Ranges.{leaf_for-Each, leaf_for-Has, leaf_for-IsInRange, leaf_for-own}
use pmemkv.Tree3.Recovery.Values.{Read, leaf_value-IsEmpty, IsFrom-used, leaf_for-value}
use pmemkv.Tree3.Slots.{IsEmpty}
use pmemkv.Tree3.States.{InUse, ph, ne_zero, TopValid, IsValid, value_at, tree_value}
use pmemkv.Tree3.Unused.{OthersEmpty, Unused-map, IsSpare}
use pmemkv.Tree3.Validity.{TreeValid, place}
use pmemkv.Tree3.Visiting.{Full-value}
use pmemkv.Tree3.Recovery.Asserts.{EmptyKeyAside, no_assertion, asserts_pass-false}

list_cases :
    (rs : List RecoveredLeaf)
    → (rs ≡ []) ⊎ ((x : RecoveredLeaf) × (xs : List RecoveredLeaf) × (rs ≡ x ∷ xs))
list_cases [] = inl refl
list_cases (x ∷ xs) = inr (x, xs, refl)

nothing_listed : (mem : Memory) (P : RecoveredLeaf → Type 0) → IsListing mem P (length mem) [] []
nothing_listed mem P = record {
  each = tt;
  different = tt;
  complete = λ l i j. absurd (omega arith);
  empty = tt;
  from = tt;
}

module _ (before_table : ℕ → ℕ) where
  module _ (mem : Memory) (t : Top KvLeafNode)
      (v : TreeValid (ph before_table) (ne_zero before_table) mem t) where
    abbrev Origin : RecoveredLeaf → Type 0
    Origin = Read before_table mem t v

    module _ (t' : Top KvLeafNode) (x : RecoveredLeaf) (xs : List RecoveredLeaf)
        (a : IsAscending none x.max_key xs) (fs : Each Origin (x ∷ xs))
        (o : TopOrdered KvLeafNode t')
        (p : (q : Bytes) → place t' q ≡ leaf_for none x.leafnode x.max_key xs q)
        (complete : (l : ℕ)
          → l < length mem
          → IsEmpty mem l ⊎ Has (λ r. r.leafnode.leaf ≡ l) (x ∷ xs)) where
      -- A leaf of the recovered tree is read from one of the tree.
      rebuilt_from : (q : Bytes) → (y : RecoveredLeaf) × Origin y × ((place t' q).2 ≡ y.leafnode)
      rebuilt_from q = rw (p q) (leaf_for-Each Origin none x xs q fs)

      rebuilt-TreeValid : TreeValid (ph before_table) (ne_zero before_table) mem t'
      rebuilt-TreeValid = record {
        ordered = o;
        leaf_nodes = λ q.
            let (y, g, s) = rebuilt_from q in
            rw s (
              Agrees-IsLeafNode (ph before_table) (ne_zero before_table) y.leafnode
                (place t y.max_key).2 g.agrees mem (v.leaf_nodes y.max_key));
        in_range = λ q. rw (p q) (
            leaf_for-IsInRange (ph before_table) (ne_zero before_table) mem t v none x xs q a fs
              (λ i u. refl));
        own = λ q q'.
            rw (p q, p q')
              (leaf_for-own (ph before_table) (ne_zero before_table) mem t v none x xs q q' a fs);
      }

      rebuilt-used : (l : ℕ) → InUse (some t') l → IsEmpty mem l → ⊥
      rebuilt-used l (q, e) empty =
          let (y, g, s) = rebuilt_from q in
          let e' : y.leafnode.leaf ≡ l = ap (λ (n : KvLeafNode). n.leaf) (sym s) ∙ e in
          IsFrom-used before_table mem t v y g (rw e' empty)

      rebuilt-InUse : (l : ℕ) → l < length mem → InUse (some t') l ⊎ IsEmpty mem l
      rebuilt-InUse l h = elim (complete l h) [
        | inl empty ↦ inr empty
        | inr has ↦
            let (r, e, s) = leaf_for-Has xs (λ r. r.leafnode.leaf ≡ l) none x a has in
            inl (r.max_key, rw (p r.max_key) (ap (λ (n : KvLeafNode). n.leaf) s ∙ e))
      ]

    -- The key that a leaf is recovered with has a value.
    IsFrom-value :
        (r : RecoveredLeaf)
        → OthersEmpty mem (InUse (some t))
        → Origin r
        → is_some (value_at before_table mem (some t) r.max_key) ≡ true
    IsFrom-value r others f =
        let (j, u, k) = f.max_used in
        let n = (place t r.max_key).2 in
        elim (slot_fact (ph before_table) (ne_zero before_table) mem n j (v.leaf_nodes r.max_key)) [
          | unused z e ↦ absurd (u z)
          | used b e p k' u' i ↦
              let full =
                Full-value before_table mem t v others n.leaf j b (e, λ z. u (sym p ∙ z)) in
              let same : b.key ≡ r.max_key = k' ∙ k in
              let e' : value_at before_table mem (some t) r.max_key ≡ some b.value =
                rw same at full in
              rw e' refl
        ]

    failed :
        OthersEmpty mem (InUse (some t))
        → (l : RecoveredLeaf) (rs : List RecoveredLeaf) → IsAscending none l.max_key rs
        → Each Origin (l ∷ rs)
        → asserts_pass (l ∷ rs) ≡ false
        → EmptyKeyAside (value_at before_table mem (some t))
    failed others l rs a fs h =
        let (x, y, f, g, e, n) = asserts_pass-false Origin none l rs a fs h in
        let w = IsFrom-value x others f in (rw e at w, (y.max_key, n, IsFrom-value y others g))

    -- What the recovered leaves and the unused ones make, from their list.
    listed :
        (prealloc : List ℕ) (leaves : List RecoveredLeaf)
        → OthersEmpty mem (InUse (some t))
        → IsListing mem Origin 0 prealloc leaves
        → let top = recover_top (sort_by_max leaves) in
          TopValid before_table mem top
          × IsSpare mem (InUse top) prealloc
          × ((q : Bytes) → value_at before_table mem top q ≡ value_at before_table mem (some t) q)
          × (asserts_pass (sort_by_max leaves) ≡ false
              → EmptyKeyAside (value_at before_table mem (some t)))
    unfolding recover_top
    listed prealloc leaves others w =
        let fs =
          Each-sort_by_max Origin leaves
            (Each-map (λ r. Origin r × (0 ≤ r.leafnode.leaf)) Origin (λ r y. y.0) leaves w.each) in
        let complete : (l : ℕ)
            → l < length mem
            → IsEmpty mem l ⊎ Has (λ r. r.leafnode.leaf ≡ l) (sort_by_max leaves) =
          λ l h. elim (w.complete l (omega arith) h) [
            | inl e ↦ inl e
            | inr has ↦ inr (Has-sort_by_max (λ r. r.leafnode.leaf ≡ l) leaves has)
          ] in
        elim (list_cases (sort_by_max leaves)) [
          | inl e ↦
              let c : (l : ℕ) → l < length mem → IsEmpty mem l ⊎ Has (λ r. r.leafnode.leaf ≡ l) [] =
                rw e at complete in
              let empty : (l : ℕ) → l < length mem → IsEmpty mem l =
                λ l h. elim (c l h) [ inl z ↦ z | inr z ↦ absurd z ] in
              rw e (
                tt,
                record {
                  unused = Unused-map mem mem _ _ prealloc (λ l z. z) (λ l z. absurd z) w.empty;
                  others = λ l h. ((others l h).0, inr (empty l h));
                },
                (λ q. sym (
                    leaf_value-IsEmpty before_table mem (place t q).2 q (v.leaf_nodes q)
                      (empty (place t q).2.leaf (v.leaf_nodes q).leaf.allocated))),
                λ h. absurd (no_assertion h),
              )
          | inr (x, xs, e) ↦
              let a = sort_by_max-IsAscending leaves x xs w.different e in
              let fs' : Each Origin (x ∷ xs) = rw e at fs in
              let c : (l : ℕ)
                  → l < length mem
                  → IsEmpty mem l ⊎ Has (λ r. r.leafnode.leaf ≡ l) (x ∷ xs) =
                rw e at complete in
              let (t', e', o, p) = recover_top-sort_by_max leaves x xs w.different e in
              rw e' (
                rebuilt-TreeValid t' x xs a fs' o p c,
                record {
                  unused =
                      Unused-map mem mem _ _ prealloc (λ l z. z) (rebuilt-used t' x xs a fs' o p c)
                        w.empty;
                  others = λ l h. ((others l h).0, rebuilt-InUse t' x xs a fs' o p c l h);
                },
                (λ q. rw (p q) (leaf_for-value before_table mem t v x xs q a fs' c)),
                λ h. failed others x xs a fs' (rw e at h),
              )
        ]

  -- No leaf of an empty memory has an entry.
  empty_listed :
      (mem : Memory) (prealloc : List ℕ) (leaves : List RecoveredLeaf)
      → OthersEmpty mem (InUse none)
      → IsListing mem (λ _. ⊥) 0 prealloc leaves
      → let top = recover_top (sort_by_max leaves) in
        TopValid before_table mem top
        × IsSpare mem (InUse top) prealloc
        × ((q : Bytes) → value_at before_table mem top q ≡ none)
        × (asserts_pass (sort_by_max leaves) ≡ true)
  unfolding recover_top sort_by_max asserts_pass
  empty_listed mem prealloc [] others w = (
    tt,
    record {
      unused = Unused-map mem mem _ _ prealloc (λ l z. z) (λ l z. absurd z) w.empty;
      others = others;
    },
    (λ q. refl),
    refl,
  )
  empty_listed mem prealloc (x ∷ xs) others w = absurd w.each.0.0

  recover_any :
      (mem : Memory) (top : Option (Top KvLeafNode)) (ls : List ℕ)
      → TopValid before_table mem top
      → IsSpare mem (InUse top) ls
      → let r = recover_leaves (length mem) mem [] [] in
        let top' = recover_top (sort_by_max r.1) in
        TopValid before_table mem top'
        × IsSpare mem (InUse top') r.0
        × ((q : Bytes) → value_at before_table mem top' q ≡ value_at before_table mem top q)
        × (asserts_pass (sort_by_max r.1) ≡ false → EmptyKeyAside (value_at before_table mem top))
  recover_any mem none ls v u =
      let r = recover_leaves (length mem) mem [] [] in
      let empty : (l : ℕ) → l < length mem → IsEmpty mem l =
        λ l h. elim (u.others l h).1 [ inl z ↦ absurd z | inr z ↦ z ] in
      let (a, b, c, d) = empty_listed mem r.0 r.1 u.others (
        recover_leaves-IsListing mem (λ _. ⊥) (length mem) [] []
          (λ l h. ((u.others l h).0, inl (read-IsEmpty mem l (empty l h), empty l h)))
          (λ x y f g e. absurd f) (omega arith) (nothing_listed mem (λ _. ⊥))) in
      (a, b, c, λ h. cc)
  recover_any mem (some t) ls v u =
      let r = recover_leaves (length mem) mem [] [] in
      listed mem t v r.0 r.1 u.others (
        recover_leaves-IsListing mem (Read before_table mem t v) (length mem) [] []
          (λ l h. (
            (u.others l h).0,
            read-Known (ph before_table) (ne_zero before_table) mem t v l (u.others l h).1,
          ))
          (λ x y f g e.
            leaf-IsFrom (ph before_table) (ne_zero before_table) mem t v x y f g (ap (place t) e))
          (omega arith) (nothing_listed mem (Read before_table mem t v)))

  -- A restart of a valid state outside of all calls, in which `Recover` gets its persistent leaves
  -- and nothing else, gives a valid state again, with the same value for every key; only a build
  -- with assertions may end at one that fails, and then the empty key and another key have a value. The bytes before
  -- the lookup table of the hash are the same before and after the restart.
  pub recover-tree_value :
      (ndebug : Bool) (s : Tree3)
      → IsValid before_table s
      → ((s' : Tree3) × (recover ndebug s.leaves ≡ some s')
          × IsValid before_table s'
          × ((q : Bytes) → tree_value before_table s' q ≡ tree_value before_table s q))
        ⊎ ((recover ndebug s.leaves ≡ none)
            × (ndebug ≡ false)
            × EmptyKeyAside (tree_value before_table s))
  unfolding tree_value recover
  recover-tree_value ndebug s v =
      let (top, spare, values, failed) =
        recover_any s.leaves s.tree_top s.leaves_prealloc v.top_valid v.spare in
      let r = recover_leaves (length s.leaves) s.leaves [] [] in
      elim (Bool-cases (asserts_pass (sort_by_max r.1))) [
        | inl h ↦ inl (_, rw h (ground arith), record { top_valid = top; spare = spare }, values)
        | inr h ↦ elim (Bool-cases ndebug) [
          | inl n ↦ inl (_, rw n refl, record { top_valid = top; spare = spare }, values)
          | inr n ↦ inr (rw (n, h) refl, n, failed h)
        ]
      ]

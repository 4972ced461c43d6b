-- ===== src/Tree3/Changes.antt =====
-- Proofs about src/engines-experimental/tree3.cc: a step that changes one leaf, in a whole state.
use pmemkv.Base.{
  ℕ, ◌≡◌, ◌≢◌, ◌∙◌, ◌⊎◌, refl, sym, ap, true, List, Option, none, some, Bytes, if◌then◌else◌,
  Bool-cases, inl, inr,
}
use pmemkv.Tree3.{same}
use pmemkv.Tree3.Leaves.{Memory, KvLeafNode, leaf_keys}
use pmemkv.Tree3.Nodes.{Top, Grown, grow_top}
use pmemkv.Tree3.Nodes.Growth.{locate_range, locate-inside}
use pmemkv.Tree3.Nodes.Order.{inside, same_iff}
use pmemkv.Tree3.Slots.{leaf_value-congr}
use pmemkv.Tree3.States.{InUse, TopValid, value_at, ph, ne_zero}
use pmemkv.Tree3.Steps.{update}
use pmemkv.Tree3.Unused.{Unused, Unused-map, IsAllocated, IsSpare, OthersEmpty}
use pmemkv.Tree3.Validity.{
  Place, TreeValid, LeafStep, LeafStep-TreeValid, leaf_value-stepped, place, place-touched,
  place-untouched, new_place,
}

pub place-inside : (t : Top KvLeafNode) (q : Bytes) → inside (place t q).0 (place t q).1 q ≡ true
place-inside t q = locate-inside KvLeafNode t.height none none t.node q refl

module _ (before_table : ℕ → ℕ) where
  -- A valid state after a change of the value of `key` to `new`.
  pub record IsChanged (mem : Memory) (t : Option (Top KvLeafNode)) (key : Bytes)
      (new : Option Bytes) (mem' : Memory) (ls : List ℕ) (t' : Option (Top KvLeafNode))
      : Type 0 where
    pub top_valid : TopValid before_table mem' t'
    pub spare : IsSpare mem' (InUse t') ls
    pub values :
        (q : Bytes)
        → value_at before_table mem' t' q
          ≡ (if same key q then new else value_at before_table mem t q)

  module _ (mem mem' : Memory) (ls : List ℕ) (t : Top KvLeafNode) (key : Bytes)
      (g : Grown KvLeafNode) (Taken : ℕ → Type 0) (new : Option Bytes)
      (v : TreeValid (ph before_table) (ne_zero before_table) mem t)
      (w : LeafStep
        (ph before_table)
        (ne_zero before_table)
        mem
        mem'
        (place t key)
        g
        Taken
        (update key new))
      (free : (q : Bytes) → Taken (place t q).2.leaf → ⊥)
      (u : Unused mem (λ l. InUse (some t) l ⊎ Taken l) ls)
      (o : OthersEmpty mem (InUse (some t))) where
    abbrev after : Top KvLeafNode
    after = grow_top t key (λ _. g)

    InUse-after : (l : ℕ) → InUse (some after) l → InUse (some t) l ⊎ Taken l
    InUse-after l (q, e) = elim (Bool-cases (inside (place t key).0 (place t key).1 q)) [
      | inl h ↦
          let p =
            place-touched (ph before_table) (ne_zero before_table) mem mem' t key g Taken
              (update key new) v w free q h in
          let e' : (new_place (place t key).0 (place t key).1 g q).2.leaf ≡ l = rw p at e in
          elim (w.origin q h) [
            | inl old ↦ inl (key, sym old ∙ e')
            | inr taken ↦ inr (rw e' at taken)
          ]
      | inr h ↦
          let p =
            place-untouched (ph before_table) (ne_zero before_table) mem mem' t key g Taken
              (update key new) v w free q h in
          inl (q, rw p at e)
    ]

    -- A leaf that was in the tree still is.
    InUse-kept : (l : ℕ) → (place t key).2.leaf ≢ l → InUse (some t) l → InUse (some after) l
    InUse-kept l n (q, e) = elim (Bool-cases (inside (place t key).0 (place t key).1 q)) [
      | inl h ↦
          let same_place =
            ap (λ (p : Place). p.2.leaf)
              (locate_range KvLeafNode t.height none none t.node key q v.ordered h) in
          absurd (n (sym same_place ∙ e))
      | inr h ↦
          let p =
            place-untouched (ph before_table) (ne_zero before_table) mem mem' t key g Taken
              (update key new) v w free q h in
          (q, ap (λ (x : Place). x.2.leaf) p ∙ e)
    ]

    others_after : OthersEmpty mem' (InUse (some after))
    others_after l h =
        let (leaf, used) = o l (rw (← w.same_length) h) in
        (
          w.frame_leaf l leaf,
          elim (w.reached l) [
            | inl (q, i, e) ↦
                let p =
                  place-touched (ph before_table) (ne_zero before_table) mem mem' t key g Taken
                    (update key new) v w free q i in
                inl (q, ap (λ (x : Place). x.2.leaf) p ∙ e)
            | inr (n, n') ↦ elim used [
              | inl x ↦ inl (InUse-kept l n x)
              | inr x ↦ inr (λ j. w.frame l j n n' ∙ x j)
            ]
          ],
        )

    values_after :
        (q : Bytes)
        → value_at before_table mem' (some after) q
          ≡ (if same key q then new else value_at before_table mem (some t) q)
    values_after q =
        leaf_value-stepped (ph before_table) (ne_zero before_table) mem mem' t key g Taken
          (update key new) v w free q
        ∙ elim (Bool-cases (inside (place t key).0 (place t key).1 q)) [
          | inl h ↦ rw h refl
          | inr h ↦ elim (Bool-cases (same key q)) [
            | inl e ↦
                let i = place-inside t key in
                let j = ap (inside (place t key).0 (place t key).1) ((same_iff key q).0 e) in cc
            | inr e ↦ rw (h, e) refl
          ]
        ]

    pub LeafStep-IsChanged : IsChanged mem (some t) key new mem' ls (some after)
    LeafStep-IsChanged = record {
      top_valid =
          LeafStep-TreeValid (ph before_table) (ne_zero before_table) mem mem' t key g Taken
            (update key new) v w free;
      spare = record {
        unused = Unused-map mem mem' _ _ ls w.frame_leaf InUse-after u;
        others = others_after;
      };
      values = values_after;
    }

  -- The allocation of a leaf keeps the tree and its values.
  module _ (mem : Memory) (t : Top KvLeafNode) (r : Memory × List ℕ × ℕ)
      (v : TreeValid (ph before_table) (ne_zero before_table) mem t)
      (a : IsAllocated mem (InUse (some t)) r) where
    pub allocated-TreeValid : TreeValid (ph before_table) (ne_zero before_table) r.0 t
    allocated-TreeValid = record {
      ordered = v.ordered;
      leaf_nodes = λ q.
          let n = v.leaf_nodes q in
          record {
            leaf = a.leaves (place t q).2.leaf n.leaf;
            hashes_length = n.hashes_length;
            keys_length = n.keys_length;
            hashed = n.hashed;
            distinct = n.distinct;
            stored = λ i u. rw (a.slots (place t q).2.leaf i n.leaf) (n.stored i u);
            cleared = λ i z. a.slots (place t q).2.leaf i n.leaf ∙ n.cleared i z;
          };
      in_range = v.in_range;
      own = v.own;
    }

    pub allocated_values :
        (q : Bytes) → value_at before_table r.0 (some t) q ≡ value_at before_table mem (some t) q
    allocated_values q =
        leaf_value-congr (ph before_table) (ne_zero before_table) leaf_keys mem r.0 (place t q).2
          (place t q).2 q (λ j. refl) (λ j m. a.slots (place t q).2.leaf j (v.leaf_nodes q).leaf)

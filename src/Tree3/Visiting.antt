-- ===== src/Tree3/Visiting.antt =====
-- Proofs about src/engines-experimental/tree3.cc: `count_all` and `get_all` against the map from
-- keys to values.
use pmemkv.Base.{
  ℕ, ◌≡◌, ◌≢◌, ◌<◌, ◌∙◌, refl, sym, ap, List, Option, none, some, Bytes, length, get_or, get_or_end,
  ltb, arith, Bool-cases, inl, inr, true, false, get_or-replicate,
}
use pmemkv.Tree3.Filling.{Stores, matches-in_use, matches_key}
use pmemkv.Tree3.Leaves.{
  Buffer, KvSlot, Memory, KvLeafNode, leaf_keys, no_leaf, slot_at, hash_at, key_at,
}
use pmemkv.Tree3.Methods.{Tree3}
use pmemkv.Tree3.Nodes.{Top}
use pmemkv.Tree3.Nodes.Order.{Bound, same_iff}
use pmemkv.Tree3.Recovery.Finding.{place_of_used}
use pmemkv.Tree3.Recovery.Origin.{unused, used, slot_fact}
use pmemkv.Tree3.Slots.{matches, leaf_value_at}
use pmemkv.Tree3.States.{InUse, ph, ne_zero, value_at, find_slot_cases, find_slot-matches}
use pmemkv.Tree3.Unused.{OthersEmpty}
use pmemkv.Tree3.Validity.{TreeValid, place}
use pmemkv.Tree3.UsedSlots.{Stands, KeysDiffer, Full}

-- The buffers of a list are the entries of a map, each key once.
abbrev pub Entries : (Bytes → Option Bytes) → List Buffer → Type 0
Entries value bs =
    KeysDiffer bs
    × ((b : Buffer) → Stands b bs → value b.key ≡ some b.value)
    × ((q v : Bytes) → value q ≡ some v → (b : Buffer) × Stands b bs × (b.key ≡ q) × (b.value ≡ v))

Full-inside :
    (mem : Memory) (l j : ℕ) (b : Buffer) → Full (get_or mem l no_leaf) j b → l < length mem
Full-inside mem l j b (e, u) = elim (Bool-cases (ltb l (length mem))) [
  | inl h ↦ ground arith
  | inr h ↦
      let end : get_or mem l no_leaf ≡ no_leaf = get_or_end mem l no_leaf (ground arith) in
      let n : get_or no_leaf j none ≡ some b = rw end at e in
      let n' : none ≡ some b = sym (get_or-replicate {A = KvSlot} leaf_keys j none) ∙ n in cc
]

module _ (before_table : ℕ → ℕ) (mem : Memory) where
  module _ (t : Top KvLeafNode) (v : TreeValid (ph before_table) (ne_zero before_table) mem t)
      (others : OthersEmpty mem (InUse (some t))) where
    abbrev Matches : Bytes → ℕ → Type 0
    Matches q j = matches (ph before_table) (ne_zero before_table) (place t q).2 j q ≡ true

    -- A slot in use of a leaf of the tree is the slot of its key.
    used-Matches :
        (q : Bytes) (j : ℕ) (b : Buffer)
        → slot_at mem (place t q).2.leaf j ≡ some b
        → (place t b.key ≡ place t q) × (j < leaf_keys) × Matches b.key j
    used-Matches q j b e =
        let n = (place t q).2 in
        let w = v.leaf_nodes q in
        elim (slot_fact (ph before_table) (ne_zero before_table) mem n j w) [
          | unused z z' ↦ cc
          | used c f g k u i ↦
              let c' : c ≡ b = cc in
              let key : key_at n j ≡ b.key = sym k ∙ ap (λ (x : Buffer). x.key) c' in
              let p : place t b.key ≡ place t q =
                rw key at (place_of_used (ph before_table) (ne_zero before_table) mem t v q j u) in
              let hash : hash_at n j ≡ ph before_table b.key =
                w.hashed j u ∙ ap (ph before_table) key in
              let own = (same_iff b.key b.key).1 refl in
              (p, i, rw (p, key, own) (ground (arith, hash)))
        ]

    Full-Matches :
        (l j : ℕ) (b : Buffer)
        → Full (get_or mem l no_leaf) j b
        → ((place t b.key).2.leaf ≡ l) × (j < leaf_keys) × Matches b.key j
    Full-Matches l j b f = elim (others l (Full-inside mem l j b f)).1 [
      | inr empty ↦ let z : none ≡ some b = sym (empty j) ∙ f.0 in cc
      | inl (q, e) ↦
          let (p, i, m) = used-Matches q j b (rw e f.0) in
          (ap (λ (x : Bound × Bound × KvLeafNode). x.2.leaf) p ∙ e, i, m)
    ]

    pub Full-value :
        (l j : ℕ) (b : Buffer)
        → Full (get_or mem l no_leaf) j b
        → value_at before_table mem (some t) b.key ≡ some b.value
    Full-value l j b f =
        let (e, i, m) = Full-Matches l j b f in
        let n = (place t b.key).2 in
        let only : (k : ℕ)
            → k ≢ j
            → matches (ph before_table) (ne_zero before_table) n k b.key ≡ false =
          λ k ne. elim (Bool-cases (matches (ph before_table) (ne_zero before_table) n k b.key)) [
            | inl h ↦ absurd (ne ((v.leaf_nodes b.key).distinct k j b.key h m))
            | inr h ↦ h
          ] in
        leaf_value_at (ph before_table) (ne_zero before_table) leaf_keys mem n b.key j i m only
        ∙ rw (e, f.0) refl

    pub Full-position :
        (l m i j : ℕ) (b c : Buffer)
        → Full (get_or mem l no_leaf) i b
        → Full (get_or mem m no_leaf) j c
        → b.key ≡ c.key
        → (l ≡ m) × (i ≡ j)
    Full-position l m i j b c f g e =
        let (p, a, x) = Full-Matches l i b f in
        let (q, d, y) = Full-Matches m j c g in
        let q' : (place t b.key).2.leaf ≡ m = rw e q in
        let y' : Matches b.key j = rw e y in
        (sym p ∙ q', (v.leaf_nodes b.key).distinct i j b.key x y')

    pub value-Full :
        (q value : Bytes)
        → value_at before_table mem (some t) q ≡ some value
        → (l : ℕ) × (j : ℕ) × (b : Buffer) × Full (get_or mem l no_leaf) j b
          × (b.key ≡ q)
          × (b.value ≡ value)
    value-Full q value h =
        let n = (place t q).2 in
        let w = v.leaf_nodes q in
        elim (find_slot_cases before_table mem n q w) [
          | inl (f, e) ↦ cc
          | inr (slot, f, b, z, e) ↦
              let m = find_slot-matches before_table leaf_keys n q slot f in
              let u = matches-in_use (ph before_table) (ne_zero before_table) n slot q m in
              let k = matches_key (ph before_table) (ne_zero before_table) n slot q m in
              let s : Stores (some b) (hash_at n slot) (key_at n slot) =
                rw z at (w.stored slot u) in
              let x : b.value ≡ value = cc in
              (n.leaf, slot, b, (z, λ y. u (sym s.0 ∙ y)), s.1 ∙ k, x)
        ]

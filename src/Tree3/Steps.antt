-- ===== src/Tree3/Steps.antt =====
-- Proofs about src/engines-experimental/tree3.cc: the steps that fill and that free one slot.
use native.Mathlib.Decide.{ℕ_discrete}
use pmemkv.Base.{
  ℕ, ◌≡◌, ◌≢◌, ◌<◌, ◌∙◌, ◌⊎◌, refl, sym, true, false, not, [], Option, none, some, Bytes, set,
  get_or-set, length-set, ◌==◌, if◌then◌else◌, arith, Bool-cases, inl, inr, ==_iff,
}
use pmemkv.Tree3.{same}
use pmemkv.Tree3.Filling.{
  IsLeafNode, filled-IsLeafNode, leaf_value-filled, filled_keys, filled_frame, filled_leaves,
  filled_length, empty_unmatched, matches_key, same_leaf,
}
use pmemkv.Tree3.Leaves.{Memory, KvLeafNode, leaf_keys, hash_at, set_slot, leaf_fill_specific_slot}
use pmemkv.Tree3.Nodes.{kept}
use pmemkv.Tree3.Nodes.Order.{inside, less_bounds, same_iff}
use pmemkv.Tree3.Parts.{IsPart, part-IsLeafNode, leaf_value-part, matches-part, part_used}
use pmemkv.Tree3.Slots.{
  matches, leaf_value-none, slot_at-set_slot, slot_at-set_slot_ne, set_slot-IsLeaf,
}
use pmemkv.Tree3.Validity.{Place, LeafStep, IsInRange}

-- the change of a map from keys to values at one key
abbrev pub update : Bytes → Option Bytes → Bytes → Option Bytes → Option Bytes
update key new q old = if same key q then new else old

abbrev pub Untaken : ℕ → Type 0
Untaken l = ⊥

module _ (ph : Bytes → ℕ) (ph-ne-zero : (k : Bytes) → ph k ≢ 0) (mem : Memory) (here : Place)
    (v : IsLeafNode ph ph-ne-zero mem here.2) (range : IsInRange here.0 here.1 here.2)
    (less : less_bounds here.0 here.1 ≡ true) (key : Bytes) (slot : ℕ) (s : slot < leaf_keys) where
  other_unmatched :
      (q : Bytes)
      → (hash_at here.2 slot ≡ 0) ⊎ (matches ph ph-ne-zero here.2 slot key ≡ true)
      → key ≢ q
      → matches ph ph-ne-zero here.2 slot q ≡ false
  other_unmatched q (inl z) n = empty_unmatched ph ph-ne-zero here.2 slot q z
  other_unmatched q (inr m) n = elim (Bool-cases (matches ph ph-ne-zero here.2 slot q)) [
    | inl m' ↦ absurd (
        n (
          sym (matches_key ph ph-ne-zero here.2 slot key m)
          ∙ matches_key ph ph-ne-zero here.2 slot q m'))
    | inr m' ↦ m'
  ]

  pub fill-LeafStep :
      (value : Bytes)
      → ((j : ℕ) → j ≢ slot → matches ph ph-ne-zero here.2 j key ≡ false)
      → (hash_at here.2 slot ≡ 0) ⊎ (matches ph ph-ne-zero here.2 slot key ≡ true)
      → inside here.0 here.1 key ≡ true
      → let r = leaf_fill_specific_slot here.2 (ph key) key value slot mem in
        LeafStep ph ph-ne-zero mem r.0 here (kept r.1) Untaken (update key (some value))
  fill-LeafStep value only free i = record {
    grown = less;
    good = λ q h. (
      filled-IsLeafNode ph ph-ne-zero mem here.2 v key value slot s only,
      filled_keys ph ph-ne-zero mem here.2 v key value slot s only
          (λ k. inside here.0 here.1 k ≡ true) i range,
    );
    updated = λ q h.
        leaf_value-filled ph ph-ne-zero mem here.2 v key value slot s only q
          (other_unmatched q free);
    own_new = λ q q' h h' e. refl;
    origin = λ q h. inl (same_leaf ph ph-ne-zero mem here.2 v key value slot s only);
    frame = λ l j a b. filled_frame ph ph-ne-zero mem here.2 v key value slot s only l j a;
    frame_leaf = filled_leaves ph ph-ne-zero mem here.2 v key value slot s only;
    same_length = filled_length ph ph-ne-zero mem here.2 v key value slot s only;
    reached = λ l. elim (ℕ_discrete here.2.leaf l) [
      | yes e ↦ inl (key, i, same_leaf ph ph-ne-zero mem here.2 v key value slot s only ∙ e)
      | no n ↦ inr (n, λ x. x)
    ];
  }

  abbrev freed : KvLeafNode
  freed = record here.2 { hashes = set here.2.hashes slot 0; keys = set here.2.keys slot [] }

  abbrev freed_memory : Memory
  freed_memory = set_slot mem here.2.leaf slot none

  freed-IsPart : IsPart (λ j. not (j == slot)) mem here.2 freed_memory freed
  freed-IsPart = record {
    leaf = set_slot-IsLeaf mem here.2.leaf slot none here.2.leaf v.leaf;
    hashes_length = length-set here.2.hashes slot 0 ∙ v.hashes_length;
    keys_length = length-set here.2.keys slot [] ∙ v.keys_length;
    stays = λ j h.
        let n : (j == slot) ≡ false = ground arith in
        (
          get_or-set here.2.hashes slot j 0 0 (rw v.hashes_length s) ∙ rw n refl,
          get_or-set here.2.keys slot j [] [] (rw v.keys_length s) ∙ rw n refl,
          slot_at-set_slot mem here.2.leaf slot none j v.leaf s ∙ rw n refl,
        );
    goes = λ j h.
        let y : (j == slot) ≡ true = ground arith in
        (
          get_or-set here.2.hashes slot j 0 0 (rw v.hashes_length s) ∙ rw y refl,
          slot_at-set_slot mem here.2.leaf slot none j v.leaf s ∙ rw y refl,
        );
  }

  free_unmatched :
      matches ph ph-ne-zero here.2 slot key ≡ true
      → (j : ℕ) → matches ph ph-ne-zero freed j key ≡ false
  free_unmatched m j =
      matches-part ph ph-ne-zero _ mem here.2 freed_memory freed freed-IsPart j key
      ∙ elim (Bool-cases (matches ph ph-ne-zero here.2 j key)) [
        | inl m' ↦
            let e : (j == slot) ≡ true = (==_iff j slot).1 (v.distinct j slot key m' m) in rw e refl
        | inr m' ↦ rw m' (ground arith)
      ]

  pub free-LeafStep :
      matches ph ph-ne-zero here.2 slot key ≡ true
      → inside here.0 here.1 key ≡ true
      → LeafStep ph ph-ne-zero mem freed_memory here (kept freed) Untaken (update key none)
  free-LeafStep m i = record {
    grown = less;
    good = λ q h. (
      part-IsLeafNode ph ph-ne-zero _ mem here.2 freed_memory freed freed-IsPart v,
      λ i u.
          let used = part_used ph ph-ne-zero _ mem here.2 freed_memory freed freed-IsPart i u in
          rw used.1 (range i used.0),
    );
    updated = λ q h. elim (Bool-cases (same key q)) [
      | inl e ↦
          rw (e, ← (same_iff key q).0 e)
            (leaf_value-none ph ph-ne-zero leaf_keys freed_memory freed key (free_unmatched m))
      | inr e ↦ rw e (
          leaf_value-part ph ph-ne-zero _ mem here.2 freed_memory freed freed-IsPart q (λ j m'.
            elim (Bool-cases (j == slot)) [
              | inl y ↦
                  let m2 : matches ph ph-ne-zero here.2 slot q ≡ true =
                    rw ((==_iff j slot).0 y) at m' in
                  let eq =
                    sym (matches_key ph ph-ne-zero here.2 slot key m)
                    ∙ matches_key ph ph-ne-zero here.2 slot q m2 in
                  let e' = (same_iff key q).1 eq in cc
              | inr y ↦ rw y refl
            ]))
    ];
    own_new = λ q q' h h' e. refl;
    origin = λ q h. inl refl;
    frame = λ l j a b. slot_at-set_slot_ne mem here.2.leaf slot none l j a;
    frame_leaf = λ l h. set_slot-IsLeaf mem here.2.leaf slot none l h;
    same_length = length-set mem here.2.leaf _;
    reached =
        λ l. elim (ℕ_discrete here.2.leaf l) [ yes e ↦ inl (key, i, e) | no n ↦ inr (n, λ x. x) ];
  }

-- ===== src/Radix/Ranges.antt =====
-- Proofs about src/engines-experimental/radix.cc: the entries in a range of keys, before and after
-- the cache is laid over the container.
use pmemkv.Base.{
  ◌≡◌, ◌∙◌, refl, sym, ap, Bool, true, false, not, List, [], ◌∷◌, Bytes, if◌then◌else◌, arith,
  Bool-cases, inl, inr,
}
use pmemkv.OrderedMap.{Map}
use pmemkv.Radix.{
  CacheValue, value_ptr, tombstone_volatile, tombstone_persistent, Cache, from_lower, from_upper,
}
use pmemkv.Radix.Lookup.{Behind, IsAscending, Behind-trans, not_same, behind_of_not}
use pmemkv.Radix.Overlay.{overlay, overlay_at, emit}
use pmemkv.Tree3.{before, same}
use pmemkv.Tree3.Nodes.Order.{at_most-eq, before_trans, before_irrefl, same_iff}

module _ {V : Type 0} where
  -- the entries whose keys pass a test
  abbrev pub having : (Bytes → Bool) → List (Bytes × V) → List (Bytes × V)
  having test [] = []
  having test (e ∷ m) = if test e.0 then e ∷ having test m else having test m

  pub Behind-having :
      (test : Bytes → Bool) (k : Bytes) (m : List (Bytes × V))
      → Behind k m
      → Behind k (having test m)
  Behind-having test k [] b = tt
  Behind-having test k (e ∷ m) (b, bs) = elim (Bool-cases (test e.0)) [
    | inl t ↦ rw t (b, Behind-having test k m bs)
    | inr t ↦ rw t (Behind-having test k m bs)
  ]

  having-all :
      (test : Bytes → Bool) (k : Bytes) (m : List (Bytes × V))
      → ((j : Bytes) → before k j ≡ true → test j ≡ true)
      → Behind k m
      → having test m ≡ m
  having-all test k [] f b = refl
  having-all test k (e ∷ m) f (b, bs) =
      rw (f e.0 b) (ap (λ (r : List (Bytes × V)). e ∷ r) (having-all test k m f bs))

  from_upper-having :
      (key : Bytes) (m : List (Bytes × V))
      → IsAscending m
      → from_upper key m ≡ having (λ k. before key k) m
  from_upper-having key [] a = refl
  from_upper-having key (e ∷ m) (b, a) = elim (Bool-cases (before key e.0)) [
    | inl h ↦
        rw (at_most-eq e.0 key, h)
          (ap (λ (r : List (Bytes × V)). e ∷ r)
            (sym (having-all (λ k. before key k) e.0 m (λ j g. before_trans key e.0 j h g) b)))
    | inr h ↦ rw (at_most-eq e.0 key, h) (from_upper-having key m a)
  ]

  from_lower-having :
      (key : Bytes) (m : List (Bytes × V))
      → IsAscending m
      → from_lower key m ≡ having (λ k. not (before k key)) m
  from_lower-having key [] a = refl
  from_lower-having key (e ∷ m) (b, a) = elim (Bool-cases (before e.0 key)) [
    | inl h ↦ rw h (from_lower-having key m a)
    | inr h ↦ rw h (
        ap (λ (r : List (Bytes × V)). e ∷ r)
          (sym (
            having-all (λ k. not (before k key)) e.0 m
              (λ j g. ground (arith, before_trans e.0 j key g)) b)))
  ]

-- The cache's entry comes first if its key is before those of the container.
overlay_at-Behind :
    (k : Bytes) (v : CacheValue) (behind : Map → Map) (p : Map)
    → Behind k p
    → overlay_at k v behind p ≡ emit k v (behind p)
overlay_at-Behind k v behind [] b = refl
overlay_at-Behind k v behind ((j, w) ∷ p) (b, bs) =
    let l : before j k ≡ false = ground (arith, before_trans k j k b, before_irrefl k) in
    rw (not_same k j b, l) refl

-- The container's entry comes first if its key is before those of the cache.
overlay-Behind :
    (j w : Bytes) (d : Cache) (p : Map) → Behind j d → overlay d ((j, w) ∷ p) ≡ (j, w) ∷ overlay d p
unfolding overlay
overlay-Behind j w [] p b = refl
overlay-Behind j w ((k, v) ∷ d) p (b, bs) = elim (Bool-cases (same k j)) [
  | inl s ↦
      let e = (same_iff k j).0 s in
      let h : before k k ≡ true = rw (← e) at b in
      let i = before_irrefl k in absurd (true_ne_false (sym h ∙ i))
  | inr s ↦ rw (s, b) refl
]
  where
    true_ne_false : true ≡ false → ⊥
    true_ne_false x = cc

having-emit :
    (test : Bytes → Bool) (k : Bytes) (v : CacheValue) (m : Map)
    → having test (emit k v m) ≡ (if test k then emit k v (having test m) else having test m)
having-emit test k (value_ptr b) m = refl
having-emit test k tombstone_volatile m = ground arith
having-emit test k tombstone_persistent m = ground arith

module _ (test : Bytes → Bool) where
  having-overlay_at :
      (k : Bytes) (v : CacheValue) (d : Cache)
      → Behind k d
      → ((p : Map)
          → IsAscending p
          → having test (overlay d p) ≡ overlay (having test d) (having test p))
      → (p : Map) → IsAscending p
      → having test (overlay_at k v (overlay d) p) ≡ (
          if test k
          then overlay_at k v (overlay (having test d)) (having test p)
          else overlay (having test d) (having test p))
  having-overlay_at k v d b f [] a = having-emit test k v (overlay d []) ∙ rw (f [] tt) refl
  having-overlay_at k v d b f ((j, w) ∷ p) (c, a) =
      let ih = having-overlay_at k v d b f p a in
      elim (Bool-cases (same k j)) [
        | inl s ↦
            let e = (same_iff k j).0 s in
            rw s (
              ih ∙ elim (Bool-cases (test k)) [
                | inl t ↦ let t' : test j ≡ true = rw e at t in rw (t, t', s) refl
                | inr t ↦ let t' : test j ≡ false = rw e at t in rw (t, t') refl
              ])
        | inr s ↦ elim (Bool-cases (before j k)) [
          | inl l ↦
              rw (s, l)
                (elim (Bool-cases (test j)) [
                  | inl u ↦
                      let first : having test ((j, w) ∷ overlay_at k v (overlay d) p)
                          ≡ (j, w) ∷ having test (overlay_at k v (overlay d) p) =
                        rw u refl in
                      first ∙ ap (λ (r : Map). (j, w) ∷ r) ih ∙ elim (Bool-cases (test k)) [
                        | inl t ↦ rw (t, u, s, l) refl
                        | inr t ↦
                            rw (t, u)
                              (sym (
                                overlay-Behind j w (having test d) (having test p)
                                  (Behind-having test j d (Behind-trans j k d l b))))
                      ]
                  | inr u ↦
                      let first : having test ((j, w) ∷ overlay_at k v (overlay d) p)
                          ≡ having test (overlay_at k v (overlay d) p) =
                        rw u refl in
                      first ∙ ih ∙ rw u refl
                ])
          | inr l ↦
              let g = behind_of_not k j s l in
              rw (s, l)
                (having-emit test k v (overlay d ((j, w) ∷ p))
                  ∙ rw
                      (
                        f ((j, w) ∷ p) (c, a),
                        overlay_at-Behind k v (overlay (having test d)) (having test ((j, w) ∷ p))
                            (Behind-having test k ((j, w) ∷ p) (g, Behind-trans k j p g c)),
                      )
                      refl)
        ]
      ]

  -- A range of the overlay is the overlay of the ranges.
  pub having-overlay :
      (d : Cache) (p : Map)
      → IsAscending d
      → IsAscending p
      → having test (overlay d p) ≡ overlay (having test d) (having test p)
  unfolding overlay
  having-overlay [] p a c = refl
  having-overlay ((k, v) ∷ d) p (b, a) c =
      having-overlay_at k v d b (λ p'. having-overlay d p' a) p c
      ∙ elim (Bool-cases (test k)) [ inl t ↦ rw t refl | inr t ↦ rw t refl ]

pub from_upper-overlay :
    (key : Bytes) (d : Cache) (p : Map)
    → IsAscending d
    → IsAscending p
    → overlay (from_upper key d) (from_upper key p) ≡ having (λ k. before key k) (overlay d p)
from_upper-overlay key d p a c =
    rw (from_upper-having key d a, from_upper-having key p c)
      (sym (having-overlay (λ k. before key k) d p a c))

pub from_lower-overlay :
    (key : Bytes) (d : Cache) (p : Map)
    → IsAscending d
    → IsAscending p
    → overlay (from_lower key d) (from_lower key p) ≡ having (λ k. not (before k key)) (overlay d p)
from_lower-overlay key d p a c =
    rw (from_lower-having key d a, from_lower-having key p c)
      (sym (having-overlay (λ k. not (before k key)) d p a c))

-- the first entries, as long as their keys pass a test
abbrev pub take_while : (Bytes → Bool) → Map → Map
take_while test [] = []
take_while test (e ∷ m) = if test e.0 then e ∷ take_while test m else []

none-having :
    (test : Bytes → Bool) (k : Bytes) (m : Map)
    → ((j : Bytes) → before k j ≡ true → test j ≡ false)
    → Behind k m
    → having test m ≡ []
none-having test k [] f b = refl
none-having test k (e ∷ m) f (b, bs) = rw (f e.0 b) (none-having test k m f bs)

-- For a test that holds below any key for which it holds.
pub take_while-having :
    (test : Bytes → Bool) (m : Map)
    → ((k j : Bytes) → before k j ≡ true → test k ≡ false → test j ≡ false)
    → IsAscending m
    → take_while test m ≡ having test m
take_while-having test [] f a = refl
take_while-having test (e ∷ m) f (b, a) = elim (Bool-cases (test e.0)) [
  | inl t ↦ rw t (ap (λ (r : Map). e ∷ r) (take_while-having test m f a))
  | inr t ↦ rw t (sym (none-having test e.0 m (λ j h. f e.0 j h t) b))
]

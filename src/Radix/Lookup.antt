-- ===== src/Radix/Lookup.antt =====
-- Proofs about src/engines-experimental/radix.cc: the value that each key has in the cache over the
-- container.
use pmemkv.Base.{
  ◌≡◌, ◌∙◌, refl, true, false, List, [], ◌∷◌, Option, none, some, Bytes, if◌then◌else◌, Bool-cases,
  inl, inr,
}
use pmemkv.OrderedMap.{Map}
use pmemkv.Radix.{CacheValue, value_ptr, tombstone_volatile, tombstone_persistent, Cache}
use pmemkv.Radix.Overlay.{overlay, overlay_at, emit}
use pmemkv.Tree3.{before, same}
use pmemkv.Tree3.Nodes.Order.{before_trans, before_irrefl, same_iff, eq_of_before}

pub not_same : (q k : Bytes) → before q k ≡ true → same q k ≡ false
not_same q k h = elim (Bool-cases (same q k)) [
  | inl s ↦
      let e : q ≡ k = (same_iff q k).0 s in
      let h' : before k k ≡ true = rw e at h in let i = before_irrefl k in cc
  | inr s ↦ s
]

module _ {V : Type 0} where
  -- every key is behind `k`
  abbrev pub Behind : Bytes → List (Bytes × V) → Type 0
  Behind k [] = Unit
  Behind k (e ∷ m) = (before k e.0 ≡ true) × Behind k m

  abbrev pub IsAscending : List (Bytes × V) → Type 0
  IsAscending [] = Unit
  IsAscending (e ∷ m) = Behind e.0 m × IsAscending m

  -- what a key has in a list of entries
  abbrev pub at_key : Bytes → List (Bytes × V) → Option V
  at_key q [] = none
  at_key q (e ∷ m) = if same q e.0 then some e.1 else at_key q m

  pub Behind-trans :
      (j k : Bytes) (m : List (Bytes × V)) → before j k ≡ true → Behind k m → Behind j m
  Behind-trans j k [] h b = tt
  Behind-trans j k (e ∷ m) h (b, bs) = (before_trans j k e.0 h b, Behind-trans j k m h bs)

  -- A key is not among those behind it.
  pub at_key-Behind : (q : Bytes) (m : List (Bytes × V)) → Behind q m → at_key q m ≡ none
  at_key-Behind q [] b = refl
  at_key-Behind q (e ∷ m) (b, bs) = rw (not_same q e.0 b) (at_key-Behind q m bs)

  at_key-same :
      (q k : Bytes) (m : List (Bytes × V)) → same q k ≡ true → Behind k m → at_key q m ≡ none
  at_key-same q k m s b = rw ((same_iff q k).0 s) (at_key-Behind k m b)

-- What a key has where the cache, if it knows the key, hides the container.
abbrev pub resolve : Option CacheValue → Option Bytes → Option Bytes
resolve none below = below
resolve (some (value_ptr v)) below = some v
resolve (some tombstone_volatile) below = none
resolve (some tombstone_persistent) below = none

Behind-emit :
    (x k : Bytes) (v : CacheValue) (m : Map)
    → before x k ≡ true
    → Behind x m
    → Behind x (emit k v m)
Behind-emit x k (value_ptr v) m h b = (h, b)
Behind-emit x k tombstone_volatile m h b = b
Behind-emit x k tombstone_persistent m h b = b

Behind-overlay_at :
    (x k : Bytes) (v : CacheValue) (behind : Map → Map)
    → before x k ≡ true
    → ((p : Map) → Behind x p → Behind x (behind p))
    → (p : Map) → Behind x p
    → Behind x (overlay_at k v behind p)
Behind-overlay_at x k v behind h f [] b = Behind-emit x k v (behind []) h (f [] tt)
Behind-overlay_at x k v behind h f ((j, w) ∷ p) (b, bs) = elim (Bool-cases (same k j)) [
  | inl s ↦ rw s (Behind-overlay_at x k v behind h f p bs)
  | inr s ↦ elim (Bool-cases (before j k)) [
    | inl l ↦ rw (s, l) (b, Behind-overlay_at x k v behind h f p bs)
    | inr l ↦ rw (s, l) (Behind-emit x k v _ h (f ((j, w) ∷ p) (b, bs)))
  ]
]

Behind-overlay :
    (x : Bytes) (d : Cache) (p : Map) → Behind x d → Behind x p → Behind x (overlay d p)
unfolding overlay
Behind-overlay x [] p b c = c
Behind-overlay x ((k, v) ∷ d) p (b, bs) c =
    Behind-overlay_at x k v (overlay d) b (λ p' c'. Behind-overlay x d p' bs c') p c

emit-IsAscending :
    (k : Bytes) (v : CacheValue) (m : Map) → Behind k m → IsAscending m → IsAscending (emit k v m)
emit-IsAscending k (value_ptr v) m b a = (b, a)
emit-IsAscending k tombstone_volatile m b a = a
emit-IsAscending k tombstone_persistent m b a = a

-- A key that is neither the same nor before is behind.
pub behind_of_not : (k j : Bytes) → same k j ≡ false → before j k ≡ false → before k j ≡ true
behind_of_not k j s l = elim (Bool-cases (before k j)) [
  | inl h ↦ h
  | inr h ↦ let e = (same_iff k j).1 (eq_of_before k j h l) in cc
]

overlay_at-IsAscending :
    (k : Bytes) (v : CacheValue) (d : Cache)
    → Behind k d
    → ((p : Map) → IsAscending p → IsAscending (overlay d p))
    → (p : Map) → IsAscending p
    → IsAscending (overlay_at k v (overlay d) p)
overlay_at-IsAscending k v d b f [] a =
    emit-IsAscending k v (overlay d []) (Behind-overlay k d [] b tt) (f [] tt)
overlay_at-IsAscending k v d b f ((j, w) ∷ p) (c, a) = elim (Bool-cases (same k j)) [
  | inl s ↦ rw s (overlay_at-IsAscending k v d b f p a)
  | inr s ↦ elim (Bool-cases (before j k)) [
    | inl l ↦
        rw (s, l)
          (
            Behind-overlay_at j k v (overlay d) l
                (λ p' c'. Behind-overlay j d p' (Behind-trans j k d l b) c') p c,
            overlay_at-IsAscending k v d b f p a,
          )
    | inr l ↦
        let h = behind_of_not k j s l in
        rw (s, l)
          (emit-IsAscending k v (overlay d ((j, w) ∷ p))
            (Behind-overlay k d ((j, w) ∷ p) b (h, Behind-trans k j p h c)) (f ((j, w) ∷ p) (c, a)))
  ]
]

pub overlay-IsAscending :
    (d : Cache) (p : Map) → IsAscending d → IsAscending p → IsAscending (overlay d p)
unfolding overlay
overlay-IsAscending [] p a b = b
overlay-IsAscending ((k, v) ∷ d) p (b, a) c =
    overlay_at-IsAscending k v d b (λ p'. overlay-IsAscending d p' a) p c

at_key-emit :
    (q k : Bytes) (v : CacheValue) (m : Map) (known : Option CacheValue) (below : Option Bytes)
    → at_key q m ≡ resolve known below
    → (same q k ≡ true → resolve known below ≡ none)
    → at_key q (emit k v m) ≡ resolve (if same q k then some v else known) below
at_key-emit q k v m known below e gone = elim (Bool-cases (same q k)) [
  | inl s ↦ rw s (hidden v s (e ∙ gone s))
  | inr s ↦ rw s (passed v s)
]
  where
    hidden :
        (x : CacheValue)
        → same q k ≡ true
        → at_key q m ≡ none
        → at_key q (emit k x m) ≡ resolve (some x) below
    hidden (value_ptr b) s n = rw s refl
    hidden tombstone_volatile s n = n
    hidden tombstone_persistent s n = n

    passed : (x : CacheValue) → same q k ≡ false → at_key q (emit k x m) ≡ resolve known below
    passed (value_ptr b) s = rw s e
    passed tombstone_volatile s = e
    passed tombstone_persistent s = e

-- A key of the cache hides what follows.
resolve-hidden :
    (v : CacheValue) (below below' : Option Bytes)
    → resolve (some v) below ≡ resolve (some v) below'
resolve-hidden (value_ptr b) below below' = refl
resolve-hidden tombstone_volatile below below' = refl
resolve-hidden tombstone_persistent below below' = refl

at_key-overlay_at :
    (q k : Bytes) (v : CacheValue) (d : Cache)
    → Behind k d
    → ((p : Map) → IsAscending p → at_key q (overlay d p) ≡ resolve (at_key q d) (at_key q p))
    → (p : Map) → IsAscending p
    → at_key q (overlay_at k v (overlay d) p)
      ≡ resolve (if same q k then some v else at_key q d) (at_key q p)
at_key-overlay_at q k v d b f [] a =
    at_key-emit q k v (overlay d []) (at_key q d) none (f [] tt)
      (λ s. rw (at_key-same q k d s b) refl)
at_key-overlay_at q k v d b f ((j, w) ∷ p) (c, a) = elim (Bool-cases (same k j)) [
  | inl s ↦ rw s (
      at_key-overlay_at q k v d b f p a ∙ elim (Bool-cases (same q k)) [
        | inl h ↦ rw h (resolve-hidden v _ _)
        | inr h ↦
            let e : k ≡ j = (same_iff k j).0 s in
            let h' : same q j ≡ false = rw e at h in rw (h, h') refl
      ])
  | inr s ↦ elim (Bool-cases (before j k)) [
    | inl l ↦
        rw (s, l)
          (elim (Bool-cases (same q j)) [
            | inl h ↦
                let e : q ≡ j = (same_iff q j).0 h in
                let n : same q k ≡ false = rw e (not_same j k l) in
                let m : at_key q d ≡ none = rw e (at_key-Behind j d (Behind-trans j k d l b)) in
                rw (h, n, m) refl
            | inr h ↦ rw h (at_key-overlay_at q k v d b f p a)
          ])
    | inr l ↦
        let g = behind_of_not k j s l in
        rw (s, l)
          (at_key-emit q k v (overlay d ((j, w) ∷ p)) (at_key q d) (at_key q ((j, w) ∷ p))
            (f ((j, w) ∷ p) (c, a))
            (λ h.
              rw (at_key-same q k d h b, at_key-same q k ((j, w) ∷ p) h (g, Behind-trans k j p g c))
                refl))
  ]
]

-- Each key has in the overlay what the cache says of it, or else what the container has.
pub at_key-overlay :
    (q : Bytes) (d : Cache) (p : Map)
    → IsAscending d
    → IsAscending p
    → at_key q (overlay d p) ≡ resolve (at_key q d) (at_key q p)
unfolding overlay
at_key-overlay q [] p a c = refl
at_key-overlay q ((k, v) ∷ d) p (b, a) c =
    at_key-overlay_at q k v d b (λ p'. at_key-overlay q d p' a) p c

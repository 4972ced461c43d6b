-- ===== src/Tree3/UsedSlots.antt =====
-- Proofs about src/engines-experimental/tree3.cc: the list of the slots that `count_all` and
-- `get_all` go through, and the places of these slots.
use pmemkv.Base.{
  ℕ, zero, suc, ◌≡◌, ◌≢◌, ◌⊎◌, ◌∙◌, refl, sym, ap, List, [], ◌∷◌, ◌++◌, none, some, get_or, ◌==◌,
  arith, Bool-cases, inl, inr, ==_iff, false, get_or-replicate,
}
use pmemkv.Tree3.Leaves.{Buffer, KvSlot, KvLeaf, Memory, leaf_keys, no_leaf}
use pmemkv.Tree3.Methods.{used_slots, all_slots}

-- the buffer stands in a list
abbrev pub Stands : Buffer → List Buffer → Type 0
Stands b [] = ⊥
Stands b (x ∷ xs) = (x ≡ b) ⊎ Stands b xs

-- no two buffers of a list have the same key
abbrev pub KeysDiffer : List Buffer → Type 0
KeysDiffer [] = Unit
KeysDiffer (x ∷ xs) = ((y : Buffer) → Stands y xs → x.key ≢ y.key) × KeysDiffer xs

Stands-append : (b : Buffer) (xs ys : List Buffer) → Stands b (xs ++ ys) → Stands b xs ⊎ Stands b ys
Stands-append b [] ys h = inr h
Stands-append b (x ∷ xs) ys (inl e) = inl (inl e)
Stands-append b (x ∷ xs) ys (inr h) = elim (Stands-append b xs ys h) [
  | inl l ↦ inl (inr l)
  | inr r ↦ inr r
]

append-Stands : (b : Buffer) (xs ys : List Buffer) → Stands b xs ⊎ Stands b ys → Stands b (xs ++ ys)
append-Stands b [] ys (inl h) = absurd h
append-Stands b [] ys (inr h) = h
append-Stands b (x ∷ xs) ys (inl (inl e)) = inl e
append-Stands b (x ∷ xs) ys (inl (inr h)) = inr (append-Stands b xs ys (inl h))
append-Stands b (x ∷ xs) ys (inr h) = inr (append-Stands b xs ys (inr h))

append-KeysDiffer :
    (xs ys : List Buffer)
    → KeysDiffer xs
    → KeysDiffer ys
    → ((x y : Buffer) → Stands x xs → Stands y ys → x.key ≢ y.key)
    → KeysDiffer (xs ++ ys)
append-KeysDiffer [] ys d e f = e
append-KeysDiffer (x ∷ xs) ys (a, d) e f = (
  (λ y h. elim (Stands-append y xs ys h) [ inl l ↦ a y l | inr r ↦ f x y (inl refl) r ]),
  append-KeysDiffer xs ys d e (λ u v g h. f u v (inr g) h),
)

-- A slot of a leaf that `get_all` calls back for.
abbrev pub Full : KvLeaf → ℕ → Buffer → Type 0
Full slots j b = (get_or slots j none ≡ some b) × (b.ph ≢ 0)

used_slots-Full :
    (slots : KvLeaf) (b : Buffer) → Stands b (used_slots slots) → (j : ℕ) × Full slots j b
unfolding used_slots
used_slots-Full [] b = λ h. absurd h
used_slots-Full (none ∷ slots) b = λ h. let (j, f) = used_slots-Full slots b h in (suc j, f)
used_slots-Full (some x ∷ slots) b = elim (Bool-cases (x.ph == 0)) [
  | inl z ↦ rw z (λ h. let (j, f) = used_slots-Full slots b h in (suc j, f))
  | inr z ↦ rw z (λ h. elim (Stands-append b (used_slots slots) (x ∷ []) h) [
    | inl l ↦ let (j, f) = used_slots-Full slots b l in (suc j, f)
    | inr r ↦ elim r [
      | inl e ↦ (0, (ap some e, rw (← e) (λ n. cc ((==_iff x.ph 0).1 n))))
      | inr n ↦ absurd n
    ]
  ])
]

Full-used_slots :
    (slots : KvLeaf) (j : ℕ) (b : Buffer) → Full slots j b → Stands b (used_slots slots)
unfolding used_slots
Full-used_slots [] j b (e, u) = cc
Full-used_slots (none ∷ slots) zero b (e, u) = cc
Full-used_slots (none ∷ slots) (suc j) b f = Full-used_slots slots j b f
Full-used_slots (some x ∷ slots) zero b (e, u) =
    let e' : x ≡ b = cc in
    let z : (x.ph == 0) ≡ false = rw e' (ground arith) in
    rw z (append-Stands b (used_slots slots) (x ∷ []) (inr (inl e')))
Full-used_slots (some x ∷ slots) (suc j) b f = elim (Bool-cases (x.ph == 0)) [
  | inl z ↦ rw z (Full-used_slots slots j b f)
  | inr z ↦ rw z (append-Stands b (used_slots slots) (x ∷ []) (inl (Full-used_slots slots j b f)))
]

pub all_slots-Full :
    (mem : Memory) (b : Buffer)
    → Stands b (all_slots mem)
    → (l : ℕ) × (j : ℕ) × Full (get_or mem l no_leaf) j b
unfolding all_slots
all_slots-Full [] b h = absurd h
all_slots-Full (leaf ∷ mem) b h = elim (Stands-append b (all_slots mem) (used_slots leaf) h) [
  | inl x ↦ let (l, j, f) = all_slots-Full mem b x in (suc l, j, f)
  | inr x ↦ let (j, f) = used_slots-Full leaf b x in (0, j, f)
]

pub Full-all_slots :
    (mem : Memory) (l j : ℕ) (b : Buffer)
    → Full (get_or mem l no_leaf) j b
    → Stands b (all_slots mem)
unfolding all_slots
Full-all_slots [] l j b (e, u) =
    let n = get_or-replicate {A = KvSlot} leaf_keys j none in
    let e' : none ≡ some b = sym n ∙ e in cc
Full-all_slots (leaf ∷ mem) zero j b f =
    append-Stands b (all_slots mem) (used_slots leaf) (inr (Full-used_slots leaf j b f))
Full-all_slots (leaf ∷ mem) (suc l) j b f =
    append-Stands b (all_slots mem) (used_slots leaf) (inl (Full-all_slots mem l j b f))

used_slots-KeysDiffer :
    (slots : KvLeaf)
    → ((i j : ℕ) (b c : Buffer) → Full slots i b → Full slots j c → b.key ≡ c.key → i ≡ j)
    → KeysDiffer (used_slots slots)
unfolding used_slots
used_slots-KeysDiffer [] f = tt
used_slots-KeysDiffer (none ∷ slots) f =
    used_slots-KeysDiffer slots (λ i j b c x y e. ground (arith, f (suc i) (suc j) b c x y e))
used_slots-KeysDiffer (some x ∷ slots) f =
    let rest =
      used_slots-KeysDiffer slots (λ i j b c p q e. ground (arith, f (suc i) (suc j) b c p q e)) in
    elim (Bool-cases (x.ph == 0)) [
      | inl z ↦ rw z rest
      | inr z ↦ rw z (
          append-KeysDiffer (used_slots slots) (x ∷ []) rest ((λ y h. absurd h), tt)
            (λ b c g h e.
              let (i, p) = used_slots-Full slots b g in
              elim h [
                | inl s ↦
                    let q : Full (some x ∷ slots) 0 c =
                      (ap some s, rw (← s) (λ n. cc ((==_iff x.ph 0).1 n))) in
                    omega (arith, f (suc i) 0 b c p q e)
                | inr n ↦ n
              ]))
    ]

pub all_slots-KeysDiffer :
    (mem : Memory)
    → ((l m i j : ℕ) (b c : Buffer)
        → Full (get_or mem l no_leaf) i b
        → Full (get_or mem m no_leaf) j c
        → b.key ≡ c.key
        → (l ≡ m) × (i ≡ j))
    → KeysDiffer (all_slots mem)
unfolding all_slots
all_slots-KeysDiffer [] f = tt
all_slots-KeysDiffer (leaf ∷ mem) f =
    append-KeysDiffer (all_slots mem) (used_slots leaf)
      (all_slots-KeysDiffer mem (λ l m i j b c x y e.
        let (p, q) = f (suc l) (suc m) i j b c x y e in (omega (arith, p), q)))
      (used_slots-KeysDiffer leaf (λ i j b c x y e. (f 0 0 i j b c x y e).1))
      (λ b c g h e.
        let (l, i, x) = all_slots-Full mem b g in
        let (j, y) = used_slots-Full leaf c h in omega (arith, (f (suc l) 0 i j b c x y e).0))

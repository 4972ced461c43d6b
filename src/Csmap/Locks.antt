-- ===== src/Csmap/Locks.antt =====
-- Proofs about src/engines-experimental/csmap.cc: the lock of an iterator, and where it lands.
use pmemkv.Base.{
  [], ℕ, ◌+◌, ◌-◌, ◌≡◌, ◌≤◌, refl, ◌∙◌, ap, Bool, true, false, [], none, some, Bytes, ◌==◌,
  if◌then◌else◌, arith, Option-cases, get_elem?, Bool-cases, inl, inr,
}
use mathlib.Core.Option
use pmemkv.Comparator.{StrictWeakOrder}
use pmemkv.Comparator.Persistent.{pmemobj_less}
use pmemkv.Csmap.{ConcurrentMap, Csmap, key_comp, end_of}
use pmemkv.Csmap.View.{view}
use pmemkv.Csmap.Iterator as CsmapSeek
use pmemkv.Csmap.Iterator.{CsmapIterator, unlock, abort, init_seek, land, new_iterator}
use pmemkv.Csmap.Laws.{IsConcurrentMap, before_position}
use pmemkv.OrderedMap.{Map, find, lower_bound, upper_bound}
use pmemkv.OrderedMap.Ranges.{upper_bound-le, lower_bound-le, find-le}
use pmemkv.Status.{Status, ok, not_found, Outcome, returns, ◌>>=◌}
use pmemkv.Vsmap.Iterator as VsmapSeek
use pmemkv.Vsmap.{Vsmap}
use pmemkv.Vsmap.Iterator.{VsmapIterator, apply_log}

module _ {C : Type 0} (m : ConcurrentMap C) (s : Csmap C) where
  abbrev last : ℕ
  last = end_of m false s

  -- The iterator owns the lock of the entry that it stands at, and none at `end()`.
  pub record IsHeld (i : CsmapIterator) : Type 0 where
    pub within : i.it ≤ end_of m false s
    pub owns : i.node_lock ≡ (if i.it == end_of m false s then none else some i.it)

  -- the iterator of vsmap at the same position, with the same log
  abbrev pub seen : CsmapIterator → VsmapIterator
  seen i = record { writable = i.writable; it = i.it; log = i.log }

  abbrev pub seen_result : CsmapIterator × Status → VsmapIterator × Status
  seen_result (i, status) = (seen i, status)

  -- A step of the iterator that returns, holds the lock of its entry again and does what the step
  -- of vsmap's iterator does.
  abbrev pub Steps : Outcome (CsmapIterator × Status) → VsmapIterator × Status → Type 0
  Steps o r = (i' : CsmapIterator) × (o ≡ returns (i', r.1)) × IsHeld i' × (seen i' ≡ r.0)

  -- the iterator after `init_seek`
  abbrev freed : CsmapIterator → CsmapIterator
  freed i = record i { node_lock = none; log = if i.writable then [] else i.log }

  init_seek-freed : (i : CsmapIterator) → IsHeld i → init_seek m s i ≡ returns (freed i)
  unfolding init_seek unlock abort
  init_seek-freed i h = elim (Bool-cases (i.it == last)) [
    | inl e ↦ let o : i.node_lock ≡ none = h.owns ∙ rw e refl in ground arith
    | inr e ↦ let o : i.node_lock ≡ some i.it = h.owns ∙ rw e refl in ground arith
  ]

  seen-freed : (i : CsmapIterator) → seen (freed i) ≡ VsmapSeek.init_seek (seen i)
  unfolding abort VsmapSeek.init_seek VsmapSeek.abort
  seen-freed i = ground arith

  landed :
      (i : CsmapIterator) (p : ℕ)
      → i.node_lock ≡ none
      → p ≤ last
      → IsHeld (land m s i p).0
        × (seen (land m s i p).0 ≡ record (seen i) { it = p })
        × ((land m s i p).1 ≡ (if p == last then not_found else ok))
  unfolding land
  landed i p u l = elim (Bool-cases (p == last)) [
    | inl e ↦ rw e (record { within = l; owns = rw e u }, refl, refl)
    | inr e ↦ rw e (record { within = l; owns = rw e refl }, refl, refl)
  ]

  -- the result of a seek to a position
  abbrev landing : CsmapIterator → ℕ → VsmapIterator × Status
  landing i p =
      (record (VsmapSeek.init_seek (seen i)) { it = p }, if p == last then not_found else ok)

  land-Steps :
      (i : CsmapIterator) (p : ℕ) (o : Outcome (CsmapIterator × Status))
      → IsHeld i
      → p ≤ last
      → o ≡ (init_seek m s i >>= λ i'. returns (land m s i' p))
      → Steps o (landing i p)
  land-Steps i p o h l e =
      let (held, same, status) = landed (freed i) p refl l in
      (
        (land m s (freed i) p).0,
        e ∙ rw (init_seek-freed i h, ← status) refl,
        held,
        same ∙ ap (λ (j : VsmapIterator). record j { it = p }) (seen-freed i),
      )

  -- the position before another one, or `end()`
  landing_before :
      (i : CsmapIterator) (p : ℕ)
      → p ≤ last
      → landing i (before_position (m.entries s.container) p) ≡ (
          if p == 0
          then (record (VsmapSeek.init_seek (seen i)) { it = last }, not_found)
          else (record (VsmapSeek.init_seek (seen i)) { it = p - 1 }, ok))
  landing_before i p l = elim (Bool-cases (p == 0)) [
    | inl e ↦ let r : (last == last) ≡ true = ground arith in rw (e, r) refl
    | inr e ↦ let r : (p - 1 == last) ≡ false = ground arith in rw (e, r) refl
  ]

  -- The iterator in a state of vsmap's iterator: each step, the range that is handed out for
  -- writing, and the commit.
  pub record IsLikeIterator (i : CsmapIterator) : Type 0 where
    pub seek :
        (key : Bytes) → Steps (CsmapSeek.seek m s key i) (VsmapSeek.seek key (view m s) (seen i))
    pub seek_lower :
        (key : Bytes)
        → Steps (CsmapSeek.seek_lower m s key i) (VsmapSeek.seek_lower key (view m s) (seen i))
    pub seek_lower_eq :
        (key : Bytes)
        → Steps
            (CsmapSeek.seek_lower_eq m s key i)
            (VsmapSeek.seek_lower_eq key (view m s) (seen i))
    pub seek_higher :
        (key : Bytes)
        → Steps (CsmapSeek.seek_higher m s key i) (VsmapSeek.seek_higher key (view m s) (seen i))
    pub seek_higher_eq :
        (key : Bytes)
        → Steps
            (CsmapSeek.seek_higher_eq m s key i)
            (VsmapSeek.seek_higher_eq key (view m s) (seen i))
    pub seek_to_first :
        Steps (CsmapSeek.seek_to_first m s i) (VsmapSeek.seek_to_first (view m s) (seen i))
    pub is_next : Steps (CsmapSeek.is_next m s i) (VsmapSeek.is_next (view m s) (seen i))
    pub next : Steps (CsmapSeek.next m s i) (VsmapSeek.next (view m s) (seen i))
    pub write_range :
        (pos n : ℕ)
        → Option.map seen_result (CsmapSeek.write_range m s pos n i)
          ≡ VsmapSeek.write_range pos n (view m s) (seen i)
    pub commit :
        ◌≡◌ {A = Vsmap × VsmapIterator × Status}
          (
            view m (CsmapSeek.commit m s i).0,
            seen (CsmapSeek.commit m s i).1,
            (CsmapSeek.commit m s i).2,
          )
          (VsmapSeek.commit (view m s) (seen i))

  module _ (laws : IsConcurrentMap m) (order : StrictWeakOrder (key_comp m false s))
      (i : CsmapIterator) (h : IsHeld i) where
    abbrev less : Bytes → Bytes → Bool
    less = key_comp m false s

    abbrev entries : Map
    entries = m.entries s.container

    seek-Steps :
        (key : Bytes) → Steps (CsmapSeek.seek m s key i) (VsmapSeek.seek key (view m s) (seen i))
    unfolding CsmapSeek.seek VsmapSeek.seek pmemobj_less
    seek-Steps key =
        land-Steps i (find less key entries) _ h (find-le less order key entries)
          (rw (laws.find less key s.container) refl)

    seek_higher-Steps :
        (key : Bytes)
        → Steps (CsmapSeek.seek_higher m s key i) (VsmapSeek.seek_higher key (view m s) (seen i))
    unfolding CsmapSeek.seek_higher VsmapSeek.seek_higher pmemobj_less
    seek_higher-Steps key =
        land-Steps i (upper_bound less key entries) _ h (upper_bound-le less order key entries)
          (rw (laws.find_higher less key s.container) refl)

    seek_higher_eq-Steps :
        (key : Bytes)
        → Steps
            (CsmapSeek.seek_higher_eq m s key i)
            (VsmapSeek.seek_higher_eq key (view m s) (seen i))
    unfolding CsmapSeek.seek_higher_eq VsmapSeek.seek_higher_eq pmemobj_less
    seek_higher_eq-Steps key =
        land-Steps i (lower_bound less key entries) _ h (lower_bound-le less order key entries)
          (rw (laws.find_higher_eq less key s.container) refl)

    before-le : (p : ℕ) → p ≤ last → before_position entries p ≤ last
    before-le p l = ground arith

    seek_lower-Steps :
        (key : Bytes)
        → Steps (CsmapSeek.seek_lower m s key i) (VsmapSeek.seek_lower key (view m s) (seen i))
    unfolding CsmapSeek.seek_lower VsmapSeek.seek_lower pmemobj_less
    seek_lower-Steps key =
        let p = lower_bound less key entries in
        let l = lower_bound-le less order key entries in
        rw (← landing_before i p l) (
          land-Steps i (before_position entries p) _ h (before-le p l)
            (rw (laws.find_lower less key s.container) refl))

    seek_lower_eq-Steps :
        (key : Bytes)
        → Steps
            (CsmapSeek.seek_lower_eq m s key i)
            (VsmapSeek.seek_lower_eq key (view m s) (seen i))
    unfolding CsmapSeek.seek_lower_eq VsmapSeek.seek_lower_eq pmemobj_less
    seek_lower_eq-Steps key =
        let p = upper_bound less key entries in
        let l = upper_bound-le less order key entries in
        rw (← landing_before i p l) (
          land-Steps i (before_position entries p) _ h (before-le p l)
            (rw (laws.find_lower_eq less key s.container) refl))

    seek_to_first-Steps :
        Steps (CsmapSeek.seek_to_first m s i) (VsmapSeek.seek_to_first (view m s) (seen i))
    unfolding CsmapSeek.seek_to_first VsmapSeek.seek_to_first
    seek_to_first-Steps = elim (Bool-cases (last == 0)) [
      | inl e ↦
          let there : (i.it == last) ≡ true = ground (arith, h.within) in
          rw (init_seek-freed i h, e)
            (freed i, refl, record { within = h.within; owns = rw there refl }, seen-freed i)
      | inr e ↦
          let first : (0 == last) ≡ false = ground arith in
          rw (init_seek-freed i h, e)
            (
              record (freed i) { it = 0; node_lock = some 0 },
              refl,
              record { within = omega arith; owns = rw first refl },
              ap (λ (j : VsmapIterator). record j { it = 0 }) (seen-freed i),
            )
    ]

    is_next-Steps : Steps (CsmapSeek.is_next m s i) (VsmapSeek.is_next (view m s) (seen i))
    unfolding CsmapSeek.is_next VsmapSeek.is_next
    is_next-Steps = (i, refl, h, refl)

    next-Steps : Steps (CsmapSeek.next m s i) (VsmapSeek.next (view m s) (seen i))
    unfolding CsmapSeek.next VsmapSeek.next
    next-Steps = elim (Bool-cases (i.it == last)) [
      | inl e ↦
          rw (init_seek-freed i h, e)
            (freed i, refl, record { within = h.within; owns = rw e refl }, seen-freed i)
      | inr e ↦
          rw (init_seek-freed i h, e)
            (land-Steps i (i.it + 1) _ h (ground (arith, h.within)) (rw (init_seek-freed i h) refl))
    ]

    write_range-Vsmap :
        (pos n : ℕ)
        → Option.map seen_result (CsmapSeek.write_range m s pos n i)
          ≡ VsmapSeek.write_range pos n (view m s) (seen i)
    unfolding CsmapSeek.write_range VsmapSeek.write_range CsmapSeek.current VsmapSeek.current
    write_range-Vsmap pos n = elim (Bool-cases i.writable) [
      | inl w ↦ elim (Option-cases (get_elem? (m.entries s.container) i.it)) [
        | inl e ↦ rw (w, e) refl
        | inr (x, e) ↦ rw (w, e) (ground arith)
      ]
      | inr w ↦ rw w refl
    ]

    commit-Vsmap :
        ◌≡◌ {A = Vsmap × VsmapIterator × Status}
          (
            view m (CsmapSeek.commit m s i).0,
            seen (CsmapSeek.commit m s i).1,
            (CsmapSeek.commit m s i).2,
          )
          (VsmapSeek.commit (view m s) (seen i))
    unfolding CsmapSeek.commit VsmapSeek.commit CsmapSeek.current VsmapSeek.current
    commit-Vsmap = elim (Bool-cases i.writable) [
      | inl w ↦ elim (Option-cases (get_elem? (m.entries s.container) i.it)) [
        | inl e ↦ rw (w, e) refl
        | inr (x, e) ↦ rw (w, e, laws.assigned i.it (apply_log i.log x.1) s.container) refl
      ]
      | inr w ↦ rw w refl
    ]

    -- An iterator of csmap that holds the lock of its entry never unlocks a lock that it does not
    -- hold: each seek and each step returns with the status and the position of vsmap's iterator on
    -- the same entries, holding the lock of its entry and none at `end()`. Its ranges for writing
    -- and its commit are those of vsmap's iterator too.
    pub iterator-IsLikeIterator : IsLikeIterator i
    iterator-IsLikeIterator = record {
      seek = seek-Steps;
      seek_lower = seek_lower-Steps;
      seek_lower_eq = seek_lower_eq-Steps;
      seek_higher = seek_higher-Steps;
      seek_higher_eq = seek_higher_eq-Steps;
      seek_to_first = seek_to_first-Steps;
      is_next = is_next-Steps;
      next = next-Steps;
      write_range = write_range-Vsmap;
      commit = commit-Vsmap;
    }

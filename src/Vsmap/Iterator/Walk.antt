-- ===== src/Vsmap/Iterator/Walk.antt =====
-- Proofs about src/engines/vsmap.cc: the steps of an iterator.
use pmemkv.Base.{ℕ, zero, suc, ◌+◌, ◌-◌, ◌≡◌, ◌≤◌, length, ltb, min, if◌then◌else◌, arith}
use pmemkv.Status.{ok, not_found}
use pmemkv.Vsmap.{Vsmap}
use pmemkv.Vsmap.Iterator.{VsmapIterator, is_next, next, prev}

-- From any position of the container, `end()` included: `next` and `is_next` return the same status,
-- `ok` exactly where another entry follows; `next` moves by one place and stays at `end()`; `prev`
-- moves back by one place, with `ok`, and stays at the first one, with `not_found`; and a `prev`
-- after a `next` leads back to where `next` was called, or from `end()` to the last entry, and
-- returns `not_found` only where there is no entry.
pub prev-next :
    (s : Vsmap) (i : VsmapIterator)
    → i.it ≤ length s.container
    → ((next s i).1 ≡ (is_next s i).1)
      × ((next s i).1 ≡ (if ltb (i.it + 1) (length s.container) then ok else not_found))
      × ((next s i).0.it ≡ min (i.it + 1) (length s.container))
      × ((prev s i).1 ≡ (if ltb 0 i.it then ok else not_found))
      × ((prev s i).0.it ≡ i.it - 1)
      × ((prev s (next s i).0).1 ≡ (if ltb 0 (length s.container) then ok else not_found))
      × ((prev s (next s i).0).0.it ≡ min i.it (length s.container - 1))
unfolding next is_next prev
prev-next s i h = ground arith

-- The position after `n` calls of `next`.
unfoldable pub walk : ℕ → Vsmap → VsmapIterator → VsmapIterator
walk zero s i = i
walk (suc n) s i = walk n s (next s i).0

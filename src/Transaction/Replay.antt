-- ===== src/Transaction/Replay.antt =====
-- Proofs about src/transaction.h and the transaction of src/engines-experimental/radix.cc.
use mathlib.Core.List.{append-nil, append_assoc}
use pmemkv.Base.{
  ◌≡◌, refl, ap, Bool, true, false, List, [], ◌∷◌, ◌++◌, Option, none, some, Bytes, if◌then◌else◌,
  arith, ◌∙◌,
}
use pmemkv.Status.{ok}
use pmemkv.Transaction.{
  Operation, DramLog, RadixTree, empty_log, replay, tx_put, tx_remove, tx_commit, tx_abort,
  insert_cb, remove_cb,
}

-- What a client of a transaction asks for.
pub data Request : Type 0 where
  put : Bytes → Bytes → Request
  remove : Bytes → Request

-- The calls of one transaction, in turn.
unfoldable pub run_requests : List Request → DramLog → DramLog
run_requests [] l = l
run_requests (put k v ∷ rs) l = run_requests rs (tx_put k v l).0
run_requests (remove k ∷ rs) l = run_requests rs (tx_remove k l).0

-- What the code relies on in the tree: after `try_emplace` without insertion nothing has changed,
-- and the lookups after each operation, for some equality test of keys.
pub record TreeLaws {S : Type 0} (tree : RadixTree S) (get : Bytes → S → Option Bytes)
    (same : Bytes → Bytes → Bool) : Type 0 where
  pub inserted :
      (k q v : Bytes) (s : S)
      → (tree.try_emplace k v s).1 ≡ true
      → get q (tree.try_emplace k v s).0 ≡ (if same q k then some v else get q s)
  pub kept :
      (k v : Bytes) (s : S) → (tree.try_emplace k v s).1 ≡ false → (tree.try_emplace k v s).0 ≡ s
  pub assigned :
      (k q v : Bytes) (s : S)
      → get q (tree.assign_val k v s) ≡ (if same q k then some v else get q s)
  pub erased : (k q : Bytes) (s : S) → get q (tree.erase k s) ≡ (if same q k then none else get q s)

-- The value of a key after the requests: that of the last one that names the key.
unfoldable pub value_after :
    (Bytes → Bytes → Bool) → Bytes → List Request → Option Bytes → Option Bytes
value_after same q [] old = old
value_after same q (put k v ∷ rs) old = value_after same q rs (if same q k then some v else old)
value_after same q (remove k ∷ rs) old = value_after same q rs (if same q k then none else old)

-- the two vectors that the requests append
operations : List Request → List Operation
operations [] = []
operations (put k v ∷ rs) = Operation.insert ∷ operations rs
operations (remove k ∷ rs) = Operation.remove ∷ operations rs

elements : List Request → List (Bytes × Bytes)
elements [] = []
elements (put k v ∷ rs) = (k, v) ∷ elements rs
elements (remove k ∷ rs) = (k, []) ∷ elements rs

run_requests-append :
    (rs : List Request) (l : DramLog)
    → run_requests rs l
      ≡ record { op_type = l.op_type ++ operations rs; log = l.log ++ elements rs }
unfolding run_requests operations elements tx_put tx_remove
run_requests-append [] l = simp append-nil
run_requests-append (put k v ∷ rs) l = run_requests-append rs (tx_put k v l).0 ∙ simp append_assoc
run_requests-append (remove k ∷ rs) l = run_requests-append rs (tx_remove k l).0 ∙ simp append_assoc

module _ {S : Type 0} (tree : RadixTree S) (get : Bytes → S → Option Bytes)
    (same : Bytes → Bytes → Bool) (laws : TreeLaws tree get same) where
  get-insert_cb :
      (k q v : Bytes) (s : S)
      → get q (insert_cb tree (k, v) s) ≡ (if same q k then some v else get q s)
  unfolding insert_cb
  get-insert_cb k q v s = ground (
    arith,
    laws.inserted k q v s,
    laws.kept k v s,
    laws.assigned k q v (tree.try_emplace k v s).0,
  )

  get-replay :
      (q : Bytes) (rs : List Request) (s : S)
      → get q (replay (insert_cb tree) (remove_cb tree) (operations rs) (elements rs) s)
        ≡ value_after same q rs (get q s)
  unfolding replay operations elements value_after remove_cb
  get-replay q [] s = refl
  get-replay q (put k v ∷ rs) s =
      get-replay q rs (insert_cb tree (k, v) s) ∙ ap (value_after same q rs) (get-insert_cb k q v s)
  get-replay q (remove k ∷ rs) s =
      get-replay q rs (tree.erase k s) ∙ ap (value_after same q rs) (laws.erased k q s)

  -- The container changes only at the commit. Then it holds, under each key, what the last request
  -- of the transaction that names the key asks for, or else what it held before; the log is empty
  -- and the status `ok`. If the transaction is aborted before, the commit changes nothing.
  pub tx_commit-run_requests :
      (q : Bytes) (rs : List Request) (s : S)
      → let l = run_requests rs empty_log in
        (get q (tx_commit tree l s).1 ≡ value_after same q rs (get q s))
        × ((tx_commit tree l s).0 ≡ empty_log)
        × ((tx_commit tree l s).2 ≡ ok)
        × ((tx_commit tree (tx_abort l) s).1 ≡ s)
  unfolding tx_commit tx_abort replay
  tx_commit-run_requests q rs s =
      (rw (run_requests-append rs empty_log) (get-replay q rs s), refl, refl, refl)

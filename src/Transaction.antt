-- ===== src/Transaction.antt =====
-- src/transaction.h: the log of a transaction in DRAM; and the transaction of the radix engine,
-- src/engines-experimental/radix.cc, which replays it.
pub mod Replay
mod Tests
use pmemkv.Base.{Bool, true, false, List, [], ◌∷◌, ◌++◌, Bytes, if◌then◌else◌}
use pmemkv.Status.{Status, ok}

-- `enum class operation`
pub data Operation : Type 0 where
  insert remove : Operation

-- `dram_log`: two vectors that grow together
pub record DramLog : Type 0 where
  pub op_type : List Operation
  pub log : List (Bytes × Bytes)

abbrev pub empty_log : DramLog
empty_log = record { op_type = []; log = [] }

unfoldable pub log_insert : Bytes → Bytes → DramLog → DramLog
log_insert key value l = record {
  op_type = l.op_type ++ Operation.insert ∷ [];
  log = l.log ++ (key, value) ∷ [];
}

-- The value of a removal is an empty string.
unfoldable pub log_remove : Bytes → DramLog → DramLog
log_remove key l = record {
  op_type = l.op_type ++ Operation.remove ∷ [];
  log = l.log ++ (key, []) ∷ [];
}

unfoldable pub log_clear : DramLog → DramLog
log_clear l = record { op_type = []; log = [] }

-- The loop of `foreach` over both vectors; the callbacks change a state `S`.
replay :
    {S : Type 0}
    → (Bytes × Bytes → S → S)
    → (Bytes × Bytes → S → S)
    → List Operation
    → List (Bytes × Bytes)
    → S
    → S
replay insert_cb remove_cb (Operation.insert ∷ ops) (e ∷ log) s =
    replay insert_cb remove_cb ops log (insert_cb e s)
replay insert_cb remove_cb (Operation.remove ∷ ops) (e ∷ log) s =
    replay insert_cb remove_cb ops log (remove_cb e s)
replay insert_cb remove_cb _ _ s = s

unfoldable pub foreach :
    {S : Type 0} → (Bytes × Bytes → S → S) → (Bytes × Bytes → S → S) → DramLog → S → S
unfolding replay
foreach insert_cb remove_cb l s = replay insert_cb remove_cb l.op_type l.log s

-- What radix.cc calls of libpmemobj++'s `radix_tree`: `try_emplace` with its flag, the assignment
-- through the iterator that it returns, and `erase` by key.
pub record RadixTree (S : Type 0) : Type 0 where
  pub try_emplace : Bytes → Bytes → S → S × Bool
  pub assign_val : Bytes → Bytes → S → S
  pub erase : Bytes → S → S

-- `internal::radix::transaction`: the log; the container is passed to the method that uses it.
unfoldable pub tx_put : Bytes → Bytes → DramLog → DramLog × Status
unfolding log_insert
tx_put key value l = (log_insert key value l, ok)

unfoldable pub tx_remove : Bytes → DramLog → DramLog × Status
unfolding log_remove
tx_remove key l = (log_remove key l, ok)

module _ {S : Type 0} (container : RadixTree S) where
  insert_cb : Bytes × Bytes → S → S
  insert_cb e s =
      let (s', inserted) = container.try_emplace e.0 e.1 s in
      if inserted then s' else container.assign_val e.0 e.1 s'

  remove_cb : Bytes × Bytes → S → S
  remove_cb e s = container.erase e.0 s

  -- The replay runs in one libpmemobj transaction, whose failure is not modelled.
  unfoldable pub tx_commit : DramLog → S → DramLog × S × Status
  unfolding foreach insert_cb remove_cb log_clear
  tx_commit l s = (log_clear l, foreach insert_cb remove_cb l s, ok)

unfoldable pub tx_abort : DramLog → DramLog
unfolding log_clear
tx_abort l = log_clear l

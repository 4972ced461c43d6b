-- ===== src/Api/Transactions.antt =====
-- src/libpmemkv.cc: the functions on a transaction handle.
use pmemkv.Api.{call}
use pmemkv.Base.{Option, none, some, Bytes}
use pmemkv.Engine.{Engine, Method}
use pmemkv.Status.{Status, ok, invalid_argument, Errors, returns, throws}

-- The virtual methods of `internal::transaction`; `abort` may end in an exception.
pub record TransactionMethods (T : Type 0) : Type 0 where
  pub put : Bytes → Bytes → Method T Unit
  pub remove : Bytes → Method T Unit
  pub commit : Method T Unit
  pub abort : T → T

-- The transaction that comes through `*tx`.
unfoldable pub pmemkv_tx_begin :
    {S Tx Iter : Type 0}
    → Engine S Tx Iter
    → Option S
    → Option (Option Tx)
    → Errors
    → Option S × Option (Option Tx) × Errors × Status
unfolding call
pmemkv_tx_begin engine db none e = (db, none, e, invalid_argument)
pmemkv_tx_begin engine db (some old) e =
    let (db', tx, e', status) =
      call "pmemkv_tx_begin"
        (λ s o.
          let (s', outcome) = engine.begin_tx s in
          elim outcome [ returns t ↦ (s', some t, returns ok) | throws t ↦ (s', o, throws t) ])
        db old e in
    (db', some tx, e', status)

module _ {T : Type 0} (methods : TransactionMethods T) where
  abbrev TxResult : Type 0
  TxResult = Option T × Unit {0} × Errors × Status

  unfoldable pub pmemkv_tx_put : Bytes → Bytes → Option T → Errors → TxResult
  unfolding call
  pmemkv_tx_put k v tx e = call "pmemkv_tx_put" (methods.put k v) tx tt e

  unfoldable pub pmemkv_tx_remove : Bytes → Option T → Errors → TxResult
  unfolding call
  pmemkv_tx_remove k tx e = call "pmemkv_tx_remove" (methods.remove k) tx tt e

  unfoldable pub pmemkv_tx_commit : Option T → Errors → TxResult
  unfolding call
  pmemkv_tx_commit tx e = call "pmemkv_tx_commit" methods.commit tx tt e

  unfoldable pub pmemkv_tx_abort : Option T → Option T
  pmemkv_tx_abort none = none
  pmemkv_tx_abort (some tx) = some (methods.abort tx)

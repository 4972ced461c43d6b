-- ===== src/Api/Iterators.antt =====
-- src/libpmemkv.cc: the functions on an iterator handle. A write iterator holds the pointer to an
-- iterator, so its functions are those of the iterator inside.
use pmemkv.Api.{call}
use pmemkv.Base.{ℕ, ◌-◌, Option, none, some, Bytes}
use pmemkv.Engine.{Engine, Method}
use pmemkv.Iterator.{IteratorMethods, value, failed, Slice, Fetch}
use pmemkv.Status.{Status, ok, invalid_argument, Errors, Outcome, returns, throws}

-- The body of a function that asks the iterator for something and writes it to its output.
abbrev pub fetching : {T A O : Type 0} → Fetch T A → (A → O) → Method T O
fetching fetch write t out =
    let (t', outcome) = fetch t in
    elim outcome [
      | returns (value a) ↦ (t', write a, returns ok)
      | returns (failed status) ↦ (t', out, returns status)
      | throws e ↦ (t', out, throws e)
    ]

-- where a range begins, and its size
abbrev pub data_and_size : Slice → ℕ × ℕ
data_and_size range = (range.0, range.1 - range.0)

-- The object that `new_iterator` or `new_const_iterator` makes comes through `*it`.
abbrev creating : {S Iter : Type 0} → (S → S × Outcome Iter) → Method S (Option Iter)
creating make s out =
    let (s', outcome) = make s in
    elim outcome [ returns i ↦ (s', some i, returns ok) | throws t ↦ (s', out, throws t) ]

module _ {S Tx Iter : Type 0} (engine : Engine S Tx Iter) where
  abbrev Created : Type 0
  Created = Option S × Option (Option Iter) × Errors × Status

  unfoldable pub pmemkv_iterator_new : Option S → Option (Option Iter) → Errors → Created
  unfolding call
  pmemkv_iterator_new db none e = (db, none, e, invalid_argument)
  pmemkv_iterator_new db (some out) e =
      let (db', i, e', status) =
        call "pmemkv_iterator_new" (creating engine.new_const_iterator) db out e in
      (db', some i, e', status)

  unfoldable pub pmemkv_write_iterator_new : Option S → Option (Option Iter) → Errors → Created
  unfolding call
  pmemkv_write_iterator_new db none e = (db, none, e, invalid_argument)
  pmemkv_write_iterator_new db (some out) e =
      let (db', i, e', status) =
        call "pmemkv_write_iterator_new" (creating engine.new_iterator) db out e in
      (db', some i, e', status)

module _ {T : Type 0} (methods : IteratorMethods T) where
  abbrev IterResult : Type 0 → Type 0
  IterResult O = Option T × O × Errors × Status

  unfoldable pub pmemkv_iterator_seek : Bytes → Option T → Errors → IterResult Unit
  unfolding call
  pmemkv_iterator_seek k it e = call "pmemkv_iterator_seek" (methods.seek k) it tt e

  unfoldable pub pmemkv_iterator_seek_lower : Bytes → Option T → Errors → IterResult Unit
  unfolding call
  pmemkv_iterator_seek_lower k it e =
      call "pmemkv_iterator_seek_lower" (methods.seek_lower k) it tt e

  unfoldable pub pmemkv_iterator_seek_lower_eq : Bytes → Option T → Errors → IterResult Unit
  unfolding call
  pmemkv_iterator_seek_lower_eq k it e =
      call "pmemkv_iterator_seek_lower_eq" (methods.seek_lower_eq k) it tt e

  unfoldable pub pmemkv_iterator_seek_higher : Bytes → Option T → Errors → IterResult Unit
  unfolding call
  pmemkv_iterator_seek_higher k it e =
      call "pmemkv_iterator_seek_higher" (methods.seek_higher k) it tt e

  unfoldable pub pmemkv_iterator_seek_higher_eq : Bytes → Option T → Errors → IterResult Unit
  unfolding call
  pmemkv_iterator_seek_higher_eq k it e =
      call "pmemkv_iterator_seek_higher_eq" (methods.seek_higher_eq k) it tt e

  unfoldable pub pmemkv_iterator_seek_to_first : Option T → Errors → IterResult Unit
  unfolding call
  pmemkv_iterator_seek_to_first it e =
      call "pmemkv_iterator_seek_to_first" methods.seek_to_first it tt e

  unfoldable pub pmemkv_iterator_seek_to_last : Option T → Errors → IterResult Unit
  unfolding call
  pmemkv_iterator_seek_to_last it e =
      call "pmemkv_iterator_seek_to_last" methods.seek_to_last it tt e

  unfoldable pub pmemkv_iterator_is_next : Option T → Errors → IterResult Unit
  unfolding call
  pmemkv_iterator_is_next it e = call "pmemkv_iterator_is_next" methods.is_next it tt e

  unfoldable pub pmemkv_iterator_next : Option T → Errors → IterResult Unit
  unfolding call
  pmemkv_iterator_next it e = call "pmemkv_iterator_next" methods.next it tt e

  unfoldable pub pmemkv_iterator_prev : Option T → Errors → IterResult Unit
  unfolding call
  pmemkv_iterator_prev it e = call "pmemkv_iterator_prev" methods.prev it tt e

  unfoldable pub pmemkv_iterator_key : Option T → Bytes → Errors → IterResult Bytes
  unfolding call
  pmemkv_iterator_key it out e = call "pmemkv_iterator_key" (fetching methods.key (λ k. k)) it out e

  unfoldable pub pmemkv_iterator_read_range : ℕ → ℕ → Option T → ℕ × ℕ → Errors → IterResult (ℕ × ℕ)
  unfolding call
  pmemkv_iterator_read_range pos n it out e =
      call "pmemkv_iterator_read_range" (fetching (methods.read_range pos n) data_and_size) it out e

  unfoldable pub pmemkv_write_iterator_write_range :
      ℕ → ℕ → Option T → ℕ × ℕ → Errors → IterResult (ℕ × ℕ)
  unfolding call
  pmemkv_write_iterator_write_range pos n it out e =
      call "pmemkv_write_iterator_write_range" (fetching (methods.write_range pos n) data_and_size)
        it out e

  unfoldable pub pmemkv_write_iterator_commit : Option T → Errors → IterResult Unit
  unfolding call
  pmemkv_write_iterator_commit it e = call "pmemkv_write_iterator_commit" methods.commit it tt e

  unfoldable pub pmemkv_write_iterator_abort : Option T → Option T
  pmemkv_write_iterator_abort none = none
  pmemkv_write_iterator_abort (some it) = some (methods.abort it)

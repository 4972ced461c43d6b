-- ===== src/Iterator.antt =====
-- src/iterator.h and src/iterator.cc: the interface of an iterator with its default methods. `T` is
-- the iterator object with the container that it points into.
use pmemkv.Base.{ℕ, Bytes}
use pmemkv.Engine.{Method, default_method}
use pmemkv.Status.{Status, not_supported, Outcome, returns}

-- `result<T>`: a value, or the status that says why there is none
pub data KvResult (A : Type 0) : Type 0 where
  value : A → KvResult A
  failed : Status → KvResult A

-- `pmem::obj::slice`: the positions of its begin and its end
abbrev pub Slice : Type 0
Slice = ℕ × ℕ

abbrev pub Fetch : Type 0 → Type 0 → Type 0
Fetch T A = T → T × Outcome (KvResult A)

pub record IteratorMethods (T : Type 0) : Type 0 where
  pub seek : Bytes → Method T Unit
  pub seek_lower : Bytes → Method T Unit
  pub seek_lower_eq : Bytes → Method T Unit
  pub seek_higher : Bytes → Method T Unit
  pub seek_higher_eq : Bytes → Method T Unit
  pub seek_to_first : Method T Unit
  pub seek_to_last : Method T Unit
  pub is_next : Method T Unit
  pub next : Method T Unit
  pub prev : Method T Unit
  pub key : Fetch T Bytes
  pub read_range : ℕ → ℕ → Fetch T Slice
  pub write_range : ℕ → ℕ → Fetch T Slice
  pub commit : Method T Unit
  pub abort : T → T

-- `iterator_base`: the defaults, with the pure virtual methods given.
unfoldable pub iterator_base :
    {T : Type 0}
    → (Bytes → Method T Unit)
    → Fetch T Bytes
    → (ℕ → ℕ → Fetch T Slice)
    → IteratorMethods T
iterator_base seek key read_range = record {
  seek = seek;
  seek_lower = λ key. default_method;
  seek_lower_eq = λ key. default_method;
  seek_higher = λ key. default_method;
  seek_higher_eq = λ key. default_method;
  seek_to_first = default_method;
  seek_to_last = default_method;
  is_next = default_method;
  next = default_method;
  prev = default_method;
  key = key;
  read_range = read_range;
  write_range = λ pos n t. (t, returns (failed not_supported));
  commit = default_method;
  abort = λ t. t;
}

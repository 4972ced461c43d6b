-- ===== src/Engine.antt =====
-- src/engine.h and src/engine.cc: the interface of a storage engine with its default methods. A
-- virtual call is a field of `Engine`, on the object's state `S` and the output argument or the
-- callback's `arg`, and it returns both with the status or the exception.
pub mod Factory
mod Tests
use Prim.Native.String.{String}
use pmemkv.Base.{ℕ, Option, none, some, Bytes}
use pmemkv.Status.{Status, not_supported, Outcome, returns, throw_not_supported}

abbrev pub Method : Type 0 → Type 0 → Type 0
Method S O = S → O → S × O × Outcome Status

-- `get_kv_callback`: the result is read only as zero or not.
abbrev pub KvCallback : Type 0 → Type 0
KvCallback A = Bytes → Bytes → A → ℕ × A

-- `get_v_callback`
abbrev pub ValueCallback : Type 0 → Type 0
ValueCallback A = Bytes → A → A

-- A `double`: its bits, which are passed on unread.
abbrev pub Double : Type 0
Double = ℕ

-- `Tx` and `Iter` are the objects behind `transaction *` and `iterator_base *`.
pub record Engine (S Tx Iter : Type 0) : Type 1 where
  pub name : String
  pub count_all : Method S ℕ
  pub count_above : Bytes → Method S ℕ
  pub count_equal_above : Bytes → Method S ℕ
  pub count_equal_below : Bytes → Method S ℕ
  pub count_below : Bytes → Method S ℕ
  pub count_between : Bytes → Bytes → Method S ℕ
  pub get_all : (A : Type 0) → KvCallback A → Method S A
  pub get_above : (A : Type 0) → Bytes → KvCallback A → Method S A
  pub get_equal_above : (A : Type 0) → Bytes → KvCallback A → Method S A
  pub get_equal_below : (A : Type 0) → Bytes → KvCallback A → Method S A
  pub get_below : (A : Type 0) → Bytes → KvCallback A → Method S A
  pub get_between : (A : Type 0) → Bytes → Bytes → KvCallback A → Method S A
  pub exists : Bytes → Method S Unit
  pub get : (A : Type 0) → Bytes → ValueCallback A → Method S A
  pub put : Bytes → Bytes → Method S Unit
  pub remove : Bytes → Method S Unit
  pub defrag : Double → Double → Method S Unit
  pub begin_tx : S → S × Outcome Tx
  pub new_iterator : S → S × Outcome Iter
  pub new_const_iterator : S → S × Outcome Iter

-- what every default method with a status does
abbrev pub default_method : {S O : Type 0} → Method S O
default_method s o = (s, o, returns not_supported)

-- `engine_base`: the defaults, with the pure virtual methods given.
unfoldable pub engine_base :
    {S Tx Iter : Type 0}
    → String
    → ((A : Type 0) → Bytes → ValueCallback A → Method S A)
    → (Bytes → Bytes → Method S Unit)
    → (Bytes → Method S Unit)
    → Engine S Tx Iter
engine_base name get put remove = record {
  name = name;
  count_all = default_method;
  count_above = λ key. default_method;
  count_equal_above = λ key. default_method;
  count_equal_below = λ key. default_method;
  count_below = λ key. default_method;
  count_between = λ key1 key2. default_method;
  get_all = λ A callback. default_method;
  get_above = λ A key callback. default_method;
  get_equal_above = λ A key callback. default_method;
  get_equal_below = λ A key callback. default_method;
  get_below = λ A key callback. default_method;
  get_between = λ A key1 key2 callback. default_method;
  exists = λ key. default_method;
  get = get;
  put = put;
  remove = remove;
  defrag = λ start_percent amount_percent. default_method;
  begin_tx = λ s. (s, throw_not_supported "Transactions are not supported in this engine");
  new_iterator = λ s. (s, throw_not_supported "Iterators are not supported in this engine");
  new_const_iterator = λ s. (s, throw_not_supported "Iterators are not supported in this engine");
}

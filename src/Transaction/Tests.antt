-- ===== src/Transaction/Tests.antt =====
-- A transaction on a tree that is a function from keys to values.
use pmemkv.Base.{
  ◌≡◌, refl, Bool, true, false, [], ◌∷◌, Option, none, some, Bytes, if◌then◌else◌, is_some, arith,
}
use mathlib.Core.List.{List}
use pmemkv.Comparator.{binary_comparator, volatile_compare}
use pmemkv.OrderedMap.{equiv}
use pmemkv.Status.{ok}
use pmemkv.Transaction.{RadixTree, tx_commit, tx_abort, empty_log}
use pmemkv.Transaction.Replay.{
  Request, put, remove, run_requests, TreeLaws, value_after, tx_commit-run_requests,
}

abbrev Store : Type 0
Store = Bytes → Option Bytes

abbrev same : Bytes → Bytes → Bool
same = equiv (volatile_compare binary_comparator)

abbrev store : Bytes → Option Bytes → Store → Store
store k v s q = if same q k then v else s q

abbrev tree : RadixTree Store
tree = record {
  try_emplace = λ k v s. if is_some (s k) then (s, false) else (store k (some v) s, true);
  assign_val = λ k v s. store k (some v) s;
  erase = λ k s. store k none s;
}

abbrev read : Bytes → Store → Option Bytes
read q s = s q

tree-laws : TreeLaws tree read same
tree-laws = record {
  inserted = λ k q v s. ground arith;
  kept = λ k v s. ground arith;
  assigned = λ k q v s. refl;
  erased = λ k q s. refl;
}

abbrev nothing : Store
nothing q = none

abbrev requests : List Request
requests = put (1 ∷ []) (5 ∷ []) ∷ put (2 ∷ []) (6 ∷ []) ∷ remove (1 ∷ []) ∷ []

tx_commit-run_requests_example :
    let get = read in
    let q : Bytes = 2 ∷ [] in
    let rs = requests in
    let s = nothing in
    let l = run_requests rs empty_log in
    (get q (tx_commit tree l s).1 ≡ value_after same q rs (get q s))
    × ((tx_commit tree l s).0 ≡ empty_log)
    × ((tx_commit tree l s).2 ≡ ok)
    × ((tx_commit tree (tx_abort l) s).1 ≡ s)
tx_commit-run_requests_example =
    tx_commit-run_requests tree read same tree-laws (2 ∷ []) requests nothing

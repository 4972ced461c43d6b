-- ===== src/Vsmap/Object.antt =====
-- src/engines/vsmap.h: `vsmap` as an engine, which overrides default methods of its base class.
use pmemkv.Base.{ℕ, true, false}
use pmemkv.Engine.{Engine, engine_base}
use pmemkv.Status.{returns}
use pmemkv.Vsmap
use pmemkv.Vsmap.{Vsmap}
use pmemkv.Vsmap.Iterator.{VsmapIterator, new_iterator}

-- vsmap has no transactions, so `Tx` has no values; `indeterminate` is where a new iterator is.
unfoldable pub vsmap_engine : ℕ → Engine Vsmap ⊥ VsmapIterator
unfolding engine_base
vsmap_engine indeterminate = record (engine_base "vsmap" Vsmap.get Vsmap.put Vsmap.remove) {
  count_all = Vsmap.count_all;
  count_above = Vsmap.count_above;
  count_equal_above = Vsmap.count_equal_above;
  count_equal_below = Vsmap.count_equal_below;
  count_below = Vsmap.count_below;
  count_between = Vsmap.count_between;
  get_all = Vsmap.get_all;
  get_above = Vsmap.get_above;
  get_equal_above = Vsmap.get_equal_above;
  get_equal_below = Vsmap.get_equal_below;
  get_below = Vsmap.get_below;
  get_between = Vsmap.get_between;
  exists = Vsmap.exists;
  new_iterator = λ s. (s, returns (new_iterator true indeterminate));
  new_const_iterator = λ s. (s, returns (new_iterator false indeterminate));
}

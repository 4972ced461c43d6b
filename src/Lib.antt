-- ===== src/Lib.antt =====
-- pmemkv: a local key-value store with a C interface (src/libpmemkv.h) over exchangeable storage
-- engines. A caller of src/libpmemkv.cc fills a config, opens an engine by its name and calls the
-- engine, its iterators and its transactions through handles. The C functions check the pointers,
-- make the virtual call and turn an exception into a status and a message of the thread.
--
-- The parts and their files:
--   Status       the status codes of src/libpmemkv.h, the exceptions of src/exceptions.h (`Thrown`),
--                the result of a C++ call (`Outcome`: it returns or throws) and src/out.cc
--   Config       src/config.h: items of five types under names, typed getters with conversions
--   Comparator   src/comparator/comparator.h and volatile_comparator.h; `StrictWeakOrder` is the
--                interface between a comparator and an engine that sorts with it;
--                Comparator/Persistent is src/comparator/pmemobj_comparator.h
--   Engine       src/engine.h and engine.cc: `Engine` is the record of the virtual methods,
--                `engine_base` its defaults; Engine/Factory is the registry of factories
--   Iterator     src/iterator.h and iterator.cc: `IteratorMethods` and `iterator_base`, likewise
--   OrderedMap   `std::map` as the sorted engine uses it: the entries in order, an iterator as a
--                position; each operation by its documented effect
--   Vsmap        src/engines/vsmap.cc: the methods of the engine; Vsmap/Iterator its iterators, where
--                `none` is an access at `end()`; Vsmap/Object the engine as an `Engine`
--   Csmap        src/engines-experimental/csmap.cc: the methods of the engine over libpmemobj-cpp's
--                concurrent map as a parameter, with what it relies on in Csmap/Laws; Csmap/Iterator
--                the iterators with the lock of an entry, Csmap/Recovery the constructor
--   Pmemobj      src/pmemobj_engine.h: the constructor of the engines on persistent memory, over the
--                pools of libpmemobj-cpp as a parameter
--   Blackhole    src/engines/blackhole.cc as an `Engine`
--   Api          src/libpmemkv.cc: `call` is what every function does around its call, Api/Configs,
--                Database, Copy, Iterators and Transactions are the functions by their handles
--   Transaction  src/transaction.h and the transaction of src/engines-experimental/radix.cc, over
--                the radix tree of libpmemobj-cpp as a parameter
--   Radix        src/engines-experimental/radix.cc: the queries of the heterogeneous engine, which
--                merge its cache with its container
--   Hash         src/fast_hash.cc
--   Robinhood    src/engines-experimental/robinhood.cc: the table (Insert, Lookup, Resize) and the
--                engine over its shards (Shards)
--   Tree3        src/engines-experimental/tree3.cc: Tree3/Nodes is `LeafSearch` and
--                `InnerUpdateAfterSplit` over the volatile inner nodes, Tree3/Leaves the leaves with
--                `LeafFill*` and `LeafSplitFull`, Tree3/Pearson `PearsonHash`, Tree3/Methods the
--                engine, Tree3/Recovery `Recover`. The other modules below Tree3 prove: Slots,
--                Filling, Scanning, Parts, Steps one leaf;
--                Sorting, Midpoint, Moving, Splitting, Dividing, Halves, Split the split of a leaf;
--                Validity, Unused, Changes, States the whole state; Updates, Put, Remove the methods;
--                Reading, Rebuilding and the modules below Recovery the recovery; Sessions is a
--                client that calls the engine and restarts it; UsedSlots, Visiting are the
--                slots that `get_all` goes through
-- Base holds what the parts share: tests and lists over native numbers, signed integers.
--
-- A method takes the object's state and the callback's argument or the output and returns both
-- with its result; a callback is a function on its argument with its `int` result. Keys and values
-- are lists of bytes. A null pointer is `none`. Words of 64 bits have `% 2 ^ 64` written out where
-- the source may wrap.
--
-- In tree3 a persistent leaf is an index into the list of all leaves, in the order in which they
-- were made, and the parents of a node are the nodes on the way down to it, so the updates of the
-- parents go up that way. A key with a child to its right is one entry of an inner node. The hash
-- of a key with a byte from 128 on depends on `before_table`, the bytes before the lookup table,
-- which are taken to be the same at every start. Of the assertions of `assert_invariants`, which a
-- build without NDEBUG has, `asserts_pass` is the one that the recovery may fail, that no key of an
-- inner node is empty; the split key of a `put` is above other keys of its leaf.
--
-- The specification of a sorted engine is a partial map from keys to values (`value_of`), with the
-- comparator's equivalence as the equality of keys; a valid engine (`IsValid`) has its entries
-- sorted by a strict weak order. A valid table of robinhood has as many entries as its capacity
-- says and counts the slots in use. The specification of tree3 is a partial map too
-- (`tree_value`); a valid tree has its keys in the ranges of its leaves, a hash and a buffer in each slot in use and
-- no buffer elsewhere, in its leaves or in those that are not in it.
--
-- Bounds: the loop of `insert_helper` runs at most `max_swaps` rounds in the source too. The loop of
-- `index_lookup` has fuel of one round per slot and one more, and `none` where it runs out: the
-- distance test ends the loop when the distance is the capacity, but at a slot whose entry has
-- been past every other slot. A query over the merged iterator has a round for each entry of the
-- cache and of the container and one more, which its loop does not need more of.
--
-- Not modelled: running out of memory in libmemkind and libpmemobj; crash recovery, and threads, so a
-- method is one step and no lock is waited for; the ownership of the config in `pmemkv_open`; an
-- iterator whose engine is changed by other calls than its own; what libpmemobj-cpp makes of a range
-- that begins past the value's end; the destruction of a rejected object in config; the order in
-- which the arguments of vsmap's constructor are evaluated; a transaction of tree3 that fails, and
-- its keys or values of 2^32 bytes or more; and the engines stree, cmap and vcmap, with the queries
-- of the plain radix engine and the cache, the queue and the thread of the heterogeneous one.
pub mod Base
pub mod Status
pub mod Config
pub mod Comparator
pub mod OrderedMap
pub mod Csmap
pub mod Engine
pub mod Iterator
pub mod Vsmap
pub mod Blackhole
pub mod Api
pub mod Transaction
pub mod Hash
pub mod Robinhood
pub mod Pmemobj
pub mod Tree3
pub mod Radix

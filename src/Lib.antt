-- ===== src/Lib.antt =====
-- python-ctools: data structures and functions in C for Python.
--
-- The extension has independent parts, which share only the macros of src/core.h: a channel, a
-- cache whose entries expire, a cache of bounded size, a sorted map, and some functions. Each part
-- is modelled in a file of its own, with its proofs in the directory of that name. Function names
-- are those of the source without the prefix of their type.
--
--   Channel      src/channel.c: CtsChannel, a ring with two cursors over twice its size. Channel/Pipe is
--                the bounded queue that it promises, Channel/Represents says when a ring holds a queue
--   TtlCache     src/ttlcache.c: CtsTTLCache and its entries; the methods that combine others are in
--                TtlCache/Methods, the view of a client is in TtlCache/Live
--   CacheMap     src/cachemap.c: CtsCacheMap and its entries, and rand_integer; CacheMap/Evict is
--                CacheMap_NextEvictKey and CacheMap_evict, the methods are in CacheMap/Methods and
--                CacheMap/Compound
--   SortedMap    src/rbtree.c: CtsRBTree, its nodes, comparison, lookups and ends. SortedMap/Store has the
--                rotations, SortedMap/Insert and SortedMap/Delete are RBTree_Put and RBTree_Remove with
--                their repairs, SortedMap/Iterate is RBtree_iter, SortedMap/Methods has the methods that
--                change the map. SortedMap/Tree is the red-black tree that the nodes stand for, with a
--                place in it, SortedMap/Shape the search tree without addresses, SortedMap/Sorted the
--                entries in order, SortedMap/Valid the invariant
--   Hash         src/functions.c: fnv1a, fnv1, djb2, murmur_hash2 and strhash
--   Jump         src/functions.c: jump_hash
--   DateInt      src/functions.c: int8_to_datetime
--   Bits         IsPowerOf2 of src/core.h, and the arithmetic of masks
--   Base         shared names; Base/Results is what a call ends in, Base/Dict is the dict of CPython
--
-- A method takes the object and returns the new object beside its result, which is a value, an
-- exception, or a fault: a failed assert, a signed overflow, a division by zero, a left shift of a
-- negative number, an access out of bounds, or a NULL result with no exception set. What
-- time(NULL) and rand() return are arguments; so are the callbacks of the caller, which may change
-- the object, and the addresses of new nodes. The dict of CPython is a list of entries in the
-- order of insertion, over keys with a decidable equality, some of which cannot be hashed. The
-- positions of PyDict_Next, the constructor of datetime, and the doubles of jump_hash are
-- parameters.
--
-- Machine integers: the cursors of a channel are ints, and sizes below 2 ^ 30 keep them from
-- overflowing; expiry times are below 2 ^ 63; visits, minutes and hashes wrap at 32 bits, the key
-- of jump_hash at 64. Bytes are read as signed chars. RAND_MAX is a parameter, and a draw of
-- rand_integer divides by zero where it is too small. The sizes that CtsCacheMap converts to an int,
-- in rand_integer, set_capacity and hit_info, wrap at 32 bits; its counters of hits and misses, and
-- other sizes, have no bound.
--
-- Fuel: the search, the descent, the climb and the repair after an insertion in the sorted map have
-- one round more than the map has nodes, and a path has no more nodes than that; the repair after a
-- deletion has two more, since it can end one turn after it reached the root. The loop of jump_hash
-- has num_buckets + 1 rounds, since each round raises the candidate. The loop of rand_integer runs
-- over the outputs of rand() that are given, and is starved if none of them ends it. All other
-- loops are recursions on their data or their count.
--
-- Not modelled: _print of src/rbtree.c; reference counts, failed allocations, traversal and
-- deallocation for the garbage collector; repr, iterators and comparison of the objects; the
-- parsing of arguments by the interpreter; the initialisation in src/module.c; the Python files.
pub mod Base
pub mod Bits
pub mod CacheMap
pub mod Channel
pub mod DateInt
pub mod Hash
pub mod Jump
pub mod SortedMap
pub mod TtlCache

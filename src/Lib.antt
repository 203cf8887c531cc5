-- ===== src/Lib.antt =====
-- Cachemere: a model of the caching library with its policies, and what holds of it.
--
-- The program. `cachemere::Cache` (include/cachemere/cache.h, cache.hpp) is a class template over a
-- hash map from keys to items. It leaves three decisions to policies: the insertion policy says
-- whether an item is wanted and whether it may replace a victim, the eviction policy gives the
-- victims in the order in which they should go, and the constraint policy says whether the items
-- fit. The cache reports every insertion, update, hit, miss and eviction to them.
--
-- The files.
-- - Common, Common/*: shared names, Boolean tests, lists over native numbers, `Outcome` (a result or
--   a fault), and `HashMap`, the interface of the hash maps with its laws. Common/Maps/Assoc has
--   the association lists as an instance.
-- - Item, Measurement: include/cachemere/item.h and measurement.hpp.
-- - Policy: what `Cache` calls of a policy. The optional handlers, which
--   include/cachemere/detail/traits.h looks for, are `Option`s, and `notify` calls them. Policy/Laws
--   has what the cache relies on: `InsertionLaws`, `EvictionLaws`, `RemovalLaws`, `ConstraintLaws`.
-- - Constraint/Memory, Constraint/Count: include/cachemere/policy/constraint_{memory,count}.hpp, each
--   with its instance of `ConstraintLaws`.
-- - LinkedList: `std::list` with its iterators as nodes that have an identity. LinkedList/Keys has
--   the keys of such a list, LinkedList/Index a list with a hash map from each key to its node, the
--   pair that the eviction policies keep.
-- - Eviction/Lru: include/cachemere/policy/eviction_lru.hpp. Lru/Laws is about its handlers and has
--   its instance of `EvictionLaws`, but none of `RemovalLaws`; Lru/Dangling is about the eviction of a
--   key that is not the first victim.
-- - Eviction/SegmentedLru: include/cachemere/policy/eviction_segmented_lru.hpp. Iterator has the victim
--   iterator, Moves the steps between the segments, Touch and Hit a hit, Victims and Evict the order
--   of the victims, Resize the setter of the size and the hit after it; Laws has its instances of
--   `EvictionLaws` and `RemovalLaws`.
-- - Double: what the code does with a `double`, as a parameter, and the laws that theorems ask for.
-- - Eviction/Gdsf: include/cachemere/policy/eviction_gdsf.hpp. Priorities is its multiset, in
--   ascending order of the coefficients (Priorities/Ranking), Indexed the set with the map from keys
--   to its nodes, Placing and Handlers the handlers, Reachable the policy as a step relation. Timely is
--   about costs that keep every coefficient in the range of the clock, and Priced has the instances
--   of `EvictionLaws` and `RemovalLaws` for such costs.
-- - Insertion/Always: include/cachemere/policy/insertion_always.hpp. Insertion/TinyLfu:
--   insertion_tinylfu.hpp, over the two filters; TinyLfu/Cardinality has its construction, TinyLfu/Touch
--   what hits and misses do to it. Both have their instance of `InsertionLaws`.
-- - Filter: include/cachemere/policy/detail. HashMixer has the positions that a key hashes to, BitSet the
--   interface of Boost's bit set, BloomMath the two functions of bloom_filter_math.hpp, Bloom the filter
--   of bloom_filter.hpp, Counting the one of counting_bloom_filter.hpp. Bloom/Membership says what
--   a filter contains; Counting/Minimum and Estimate have the estimates, Counts compares them with
--   the true counts, Decay, Nonzero and Tallied are about `decay` and `m_nb_nonzero`, Fresh (and
--   Bloom/Fresh) about a new filter.
-- - Cache: the state and the template parameters. Cache/Events has the handlers and the private
--   helpers, Cache/Admission has `check_insert` and `check_replace`, Cache/Operations has the public
--   operations and `import`. The proofs are over any policies that keep their laws (`Contract` in
--   Cache/Invariant): Cache/Invariant has the invariant of the cache, Cache/Evictions the planned
--   evictions, Cache/Insertion, Lookups, Removals, Shrinking and Lifecycle the operations.
-- - Cache/History: the public operations as commands. History/Spec says what replies a client can
--   get, as a relation on maps; History/Answers, Commands and Refinement compare the
--   cache with it.
-- - Cache/References: what a client does to the policies through the references that the cache gives.
-- - Cache/Swaps: several caches and `swap`, a cache with itself included. Swaps/Spec has one map for each
--   cache, Swaps/Refinement compares the caches with it, and Swaps/Members has the body of `swap`, one
--   exchange of two members after the other.
-- - Cache/Views: `contains` and `find` by a view of a key. Hash has `MultiHash` (include/cachemere/hash.h)
--   and `TransparentEq` (detail/transparent_eq.h), Common/Maps/Views what Abseil's maps do with them.
-- - Cache/Threads: `lock` in include/cachemere/cache.hpp, by threads that take the mutex of one cache, go
--   through the steps of an operation, whatever they are, and leave it. Threads/Serial and Histories
--   compare what they do with a history, Threads/Progress is about deadlock.
-- - Cache/Locks: `lock`, the deferred one too, and `lock_pair`, by threads that work on several caches and
--   swap them; `std::recursive_mutex` is written out, and `std::lock` is any series of `try_lock`s and
--   `unlock`s that ends with both. Locks/Ownership and Exclusion are about who has which mutex,
--   Locks/Alone and Finish about deadlock, Locks/Sections has the steps inside of the locks, and
--   Locks/Linear and Histories compare what the threads do with a history, Locks/Members for a swap
--   that goes member by member.
-- - Presets: include/cachemere/presets.h, each alias as a function to templates. Presets/Contracts has
--   their contracts, Presets/Histories what their clients see, Presets/Views a preset with views.
-- - Tests: a concrete cache, and the theorems at it.
--
-- How the code is read.
-- - An operation maps the old state to an `Outcome`. A failed assertion, as a debug build has it, and
--   undefined behaviour are faults.
-- - `size_t` has 64 bits, and its sums and differences wrap in `Item`, `ConstraintMemory`,
--   `ConstraintCount` and `Measurement`; a sample of the byte hit rate is cut to 32 bits. Theorems
--   name the sums that must not wrap.
-- - The hash maps (`absl::node_hash_map` and the policies' maps) are parameters with laws: what a
--   lookup gives after an insertion or an erasure, and that the entries have distinct keys. So is
--   Boost's bit set, and the hash is any function. Boost's accumulators are parameters without laws, and
--   so are doubles, but for the theorems that name theirs: that `<` orders numbers, and that a
--   conversion to an unsigned type rounds to zero. In a GDSF policy a NaN as a coefficient, which
--   has no place in the order of the set, and a conversion of a coefficient that does not fit its
--   type are undefined behaviour. An iterator into the data map is its entry.
-- - A new TinyLFU or GDSF policy is an argument of the templates, since the assertions in its
--   constructor can fail; `construct` is the constructor. The size of the protected segment is an
--   argument too, since the class gives it no initial value.
-- - The eviction policies keep references to the keys in the data map; here they keep the keys.
-- - In Cache/Operations each operation is one step. It is one critical section of the cache's mutex,
--   but for `hit_rate`, `byte_hit_rate` and `statistics_window_size`, which take no lock. The queries
--   of a policy do not change it.
-- - Fuel: `evict_until_satisfied` gets one more than the victims, since each round evicts one;
--   `demote_overflow` gets one more than the protected keys, since each round moves one; the walk over
--   the victims gets one more than there are keys.
--
-- Not modelled: a callback of `retain` or `for_each` that calls its cache again, under the lock that it
-- has; the guards of a cache that is not thread safe, which own nothing; the exceptions of `swap`, which
-- terminate the program; benchmarks.
pub mod Common
pub mod Hash
pub mod Item
pub mod Measurement
pub mod Policy
pub mod Constraint
pub mod LinkedList
pub mod Double
pub mod Eviction
pub mod Insertion
pub mod Filter
pub mod Cache
pub mod Presets
pub mod Tests

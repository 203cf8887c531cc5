-- ===== src/Presets/Histories.antt =====
-- The presets at work: any history of a new cache.
use mathlib.Core.Option
use cachemere.Common.{ℕ, ◌≡◌, ◌≤◌, ◌<◌, ap, subst, fun_ext, none, List, arith, ok}
use cachemere.Common.Maps.{HashMap, HashMapLaws}
use cachemere.Double.{Double, IsTruncated}
use cachemere.Item.{Item, size_mod}
use cachemere.Policy.Laws.{RemovalLaws}
use cachemere.Filter.BloomMath.{IsCastable}
use cachemere.Filter.BitSet.{BitSet, BitSetLaws}
use cachemere.Filter.Counting.{CountingBloomFilter, make_counters}
use cachemere.Filter.Counting.Fresh.{make_counters-IsUsable}
use cachemere.Insertion.TinyLfu.{InsertionTinyLfu, construct, default_cache_cardinality}
use cachemere.Insertion.TinyLfu.Cardinality.{construct-IsSized}
use cachemere.Constraint.Memory.{ConstraintMemory}
use cachemere.Constraint.Count.{ConstraintCount}
use cachemere.Insertion.Always.{InsertionAlways}
use cachemere.Eviction.SegmentedLru.{EvictionSegmentedLru}
use cachemere.Eviction.Gdsf.{EvictionGdsf}
use cachemere.Eviction.SegmentedLru.Laws.{segmented_lru-RemovalLaws}
use cachemere.Eviction.Gdsf
use cachemere.Eviction.Gdsf.Timely.{IsPriced}
use cachemere.Eviction.Gdsf.Priced.{gdsf-RemovalLaws}
use cachemere.Cache.{Cache, Template, MeanAccumulator}
use cachemere.Cache.Operations.{create}
use cachemere.Cache.Invariant.{Contract}
use cachemere.Cache.Lifecycle.{create_lem}
use cachemere.Cache.History.{Command, Reply, run}
use cachemere.Cache.History.Spec.{AreAllowed}
use cachemere.Cache.History.Answers.{contents}
use cachemere.Cache.History.Refinement.{AreTame, run-AreAllowed}
use cachemere.Eviction.Lru.{EvictionLru}
use cachemere.Presets.{memory_lru_cache, memory_tiny_lfu_cache, count_custom_cost_cache}
use cachemere.Presets.Contracts.{
  memory_lru_cache-Contract, memory_tiny_lfu_cache-Contract, count_custom_cost_cache-Contract,
}

module _ {K V I E C D A R : Type 0} {dec : Discrete K} {t : Template K V I E C D A R}
    {Good : I → Type 0} {Inv : E → Type 0} {weight : Item V → ℕ} {used limit : C → ℕ}
    (laws : Contract dec t Good Inv weight used limit) (CanRemove : Type 0)
    (removal : CanRemove → RemovalLaws dec t.eviction Inv) where
  -- From a new cache on.
  new_cache :
      (bound : ℕ) (commands : List (Command K V))
      → bound < size_mod
      → AreTame t weight CanRemove bound commands
      → (c' : Cache I E C D A) × (replies : List (Reply K V)) × (run dec t commands
            (create dec t bound)
          ≡ ok (c', replies))
        × (used c'.constraint_policy ≤ bound)
        × AreAllowed dec (λ k. none) (contents t c') commands replies
  new_cache bound commands small tame =
      let fresh = create_lem laws bound small in
      let (c', replies, ran, ready, allowed) =
        run-AreAllowed laws CanRemove removal bound commands (create dec t bound) small
          (record { valid = fresh.valid; limited = omega (arith, fresh.limit_is) }) tame in
      let vacant : contents t (create dec t bound) ≡ (λ k. none) =
        fun_ext (λ k. ap (Option.map (λ item. item.value)) (fresh.vacant k)) in
      (
        c',
        replies,
        ran,
        omega (arith, ready.limited, ready.valid.within),
        subst (λ m. AreAllowed dec m (contents t c') commands replies) vacant allowed,
      )

module _ {K V D A R W : Type 0} {dec : Discrete K} (measure_value : V → ℕ) (measure_key : K → ℕ)
    {data_map : HashMap K (Item V) D} (map_laws : HashMapLaws dec data_map)
    (accumulator : MeanAccumulator A R) {N : Type 0} {nodes : HashMap K ℕ N}
    (node_laws : HashMapLaws dec nodes) (key_hash : K → ℕ) {d : Double W} {Fits : ℕ → W → Type 0}
    (truncated : IsTruncated d Fits) where
  module _ {B : Type 0} {bitset : BitSet B} (bit_laws : BitSetLaws bitset) where
    -- A new cache of the memory-constrained TinyLFU preset, whose filters have been constructed for
    -- the default cardinality in numbers that fit their types, and with a bound below the modulus
    -- of `size_t`, goes through any history of public operations, with items whose sizes do not
    -- wrap and no larger bounds, without a failed assertion. Its replies are those that the
    -- specification of a map that may forget allows from the empty map on, and it ends with no more
    -- than the bound in its constraint.
    pub memory_tiny_lfu-AreAllowed :
        (filters : InsertionTinyLfu B) (segment_size bound : ℕ) (commands : List (Command K V))
        → IsCastable truncated default_cache_cardinality
        → construct bitset d ≡ ok filters
        → bound < size_mod
        → let t =
            memory_tiny_lfu_cache measure_value measure_key data_map accumulator nodes bitset
              key_hash filters segment_size in
          AreTame t (λ item. item.total_size) Unit bound commands
          → let t =
              memory_tiny_lfu_cache measure_value measure_key data_map accumulator nodes bitset
                key_hash filters segment_size in
            (c' : Cache (InsertionTinyLfu B) (EvictionSegmentedLru K N) ConstraintMemory D A)
            × (replies : List (Reply K V)) × (run dec t commands (create dec t bound)
                ≡ ok (c', replies))
            × (c'.constraint_policy.memory ≤ bound)
            × AreAllowed dec (λ k. none) (contents t c') commands replies
    memory_tiny_lfu-AreAllowed filters segment_size bound commands castable made =
        new_cache
          (memory_tiny_lfu_cache-Contract measure_value measure_key map_laws accumulator node_laws
            bit_laws key_hash filters
            (construct-IsSized bit_laws truncated key_hash filters castable made) segment_size)
          Unit (λ u. segmented_lru-RemovalLaws node_laws segment_size) bound commands

  -- A new cache of the count-constrained custom-cost preset, whose sketch has been constructed for
  -- the default cardinality in numbers that fit their types, and with a bound below the modulus of
  -- `size_t`, goes through any history of public operations, with items whose sizes do not wrap and
  -- no larger bounds, without a failed assertion or undefined behaviour. The costs are assumed to
  -- be such that, from some early values of the clock, 0 among them, and for estimates of 32 bits
  -- and items that have the size of their key, each coefficient is a number whose integer part fits
  -- 64 bits and is an early value too. The replies are those that the specification of a map that
  -- may forget allows from the empty map on, and the cache ends with no more items than the bound.
  pub count_custom_cost-AreAllowed :
      (cost : K → Item V → W) (sketch : CountingBloomFilter) (bound : ℕ)
      (commands : List (Command K V)) {IsEarly : ℕ → Type 0}
      → IsPriced d cost measure_key IsEarly
      → IsCastable truncated Gdsf.default_cache_cardinality
      → make_counters d Gdsf.default_cache_cardinality ≡ ok sketch
      → bound < size_mod
      → let t =
          count_custom_cost_cache measure_value measure_key data_map accumulator nodes d key_hash
            cost sketch in
        AreTame t (λ item. 1) Unit bound commands
        → let t =
            count_custom_cost_cache measure_value measure_key data_map accumulator nodes d key_hash
              cost sketch in
          (c' : Cache InsertionAlways (EvictionGdsf K W N) ConstraintCount D A) × (replies : List
            (Reply K V))
          × (run dec t commands (create dec t bound) ≡ ok (c', replies))
          × (c'.constraint_policy.count ≤ bound)
          × AreAllowed dec (λ k. none) (contents t c') commands replies
  count_custom_cost-AreAllowed cost sketch bound commands priced castable made =
      new_cache
        (count_custom_cost_cache-Contract measure_value measure_key map_laws accumulator node_laws d
          key_hash cost priced sketch
          (make_counters-IsUsable truncated Gdsf.default_cache_cardinality sketch castable made))
        Unit (λ u. gdsf-RemovalLaws node_laws d key_hash cost priced sketch) bound commands

module _ {K V D A R : Type 0} {dec : Discrete K} (measure_value : V → ℕ) (measure_key : K → ℕ)
    {data_map : HashMap K (Item V) D} (map_laws : HashMapLaws dec data_map)
    (accumulator : MeanAccumulator A R) {N : Type 0} {nodes : HashMap K ℕ N}
    (node_laws : HashMapLaws dec nodes) where
  -- A new cache of the memory-constrained LRU preset, with a bound below the modulus of `size_t`,
  -- goes through any history of public operations but `remove` and `retain`, with items whose sizes
  -- do not wrap and no larger bounds, without a failed assertion. Its replies are those that the
  -- specification of a map that may forget allows from the empty map on, and it ends with no more
  -- than the bound in its constraint.
  pub memory_lru-AreAllowed :
      (bound : ℕ) (commands : List (Command K V))
      → bound < size_mod
      → let t = memory_lru_cache measure_value measure_key data_map accumulator dec nodes in
        AreTame t (λ item. item.total_size) ⊥ bound commands
        → let t = memory_lru_cache measure_value measure_key data_map accumulator dec nodes in
          (c' : Cache InsertionAlways (EvictionLru K N) ConstraintMemory D A) × (replies : List
            (Reply K V))
          × (run dec t commands (create dec t bound) ≡ ok (c', replies))
          × (c'.constraint_policy.memory ≤ bound)
          × AreAllowed dec (λ k. none) (contents t c') commands replies
  memory_lru-AreAllowed bound commands =
      new_cache (memory_lru_cache-Contract measure_value measure_key map_laws accumulator node_laws)
        ⊥ (λ never. absurd never) bound commands

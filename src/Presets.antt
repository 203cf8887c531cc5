-- ===== src/Presets.antt =====
-- include/cachemere/presets.h and policy/bind.h: the cache templates with a shipped choice of
-- policies. Each type alias is a function to templates. `ThreadSafe` only selects the locks.
pub mod Contracts
pub mod Histories
pub mod Views
use cachemere.Common.{ℕ}
use cachemere.Common.Maps.{HashMap}
use cachemere.Double.{Double}
use cachemere.Item.{Item}
use cachemere.Policy.{InsertionPolicy, EvictionPolicy}
use cachemere.Filter.BitSet.{BitSet}
use cachemere.Filter.Counting.{CountingBloomFilter}
use cachemere.Constraint.Memory.{ConstraintMemory, memory_policy}
use cachemere.Constraint.Count.{ConstraintCount, count_policy}
use cachemere.Insertion.Always.{InsertionAlways, always_policy}
use cachemere.Insertion.TinyLfu.{InsertionTinyLfu, tiny_lfu_policy}
use cachemere.Eviction.Lru.{EvictionLru, lru_policy}
use cachemere.Eviction.SegmentedLru.{EvictionSegmentedLru, segmented_lru_policy}
use cachemere.Eviction.Gdsf.{EvictionGdsf, gdsf_policy}
use cachemere.Cache.{Template, MeanAccumulator}

-- `bind<Policy, Args...>::ttype`: the policy with its last arguments fixed.
abbrev pub bind : {Hash Args P : Type 0} → (Hash → Args → P) → Args → Hash → P
bind policy args hash = policy hash args

module _ {K V D A R : Type 0} (measure_value : V → ℕ) (measure_key : K → ℕ)
    (data_map : HashMap K (Item V) D) (accumulator : MeanAccumulator A R) where
  abbrev pub memory_constrained_cache :
      {I E : Type 0}
      → InsertionPolicy K V I
      → EvictionPolicy K V E
      → Template K V I E ConstraintMemory D A R
  memory_constrained_cache insertion eviction = record {
    insertion = insertion;
    eviction = eviction;
    constraint = memory_policy;
    measure_key = measure_key;
    measure_value = measure_value;
    data_map = data_map;
    accumulator = accumulator;
  }

  abbrev pub count_constrained_cache :
      {I E : Type 0}
      → InsertionPolicy K V I
      → EvictionPolicy K V E
      → Template K V I E ConstraintCount D A R
  count_constrained_cache insertion eviction = record {
    insertion = insertion;
    eviction = eviction;
    constraint = count_policy;
    measure_key = measure_key;
    measure_value = measure_value;
    data_map = data_map;
    accumulator = accumulator;
  }

  module _ {N : Type 0} (dec : Discrete K) (nodes : HashMap K ℕ N) where
    abbrev pub memory_lru_cache :
        Template K V InsertionAlways (EvictionLru K N) ConstraintMemory D A R
    memory_lru_cache = memory_constrained_cache always_policy (lru_policy dec nodes)

    abbrev pub count_lru_cache :
        Template K V InsertionAlways (EvictionLru K N) ConstraintCount D A R
    count_lru_cache = count_constrained_cache always_policy (lru_policy dec nodes)

  -- The filters that a new policy has are arguments; the size of the protected segment is what the
  -- client sets by `set_protected_segment_size`.
  module _ {N B : Type 0} (nodes : HashMap K ℕ N) (bitset : BitSet B) (key_hash : K → ℕ)
      (filters : InsertionTinyLfu B) (protected_segment_size : ℕ) where
    abbrev pub memory_tiny_lfu_cache :
        Template K V (InsertionTinyLfu B) (EvictionSegmentedLru K N) ConstraintMemory D A R
    memory_tiny_lfu_cache =
        memory_constrained_cache (tiny_lfu_policy bitset key_hash filters)
          (segmented_lru_policy nodes protected_segment_size)

    abbrev pub count_tiny_lfu_cache :
        Template K V (InsertionTinyLfu B) (EvictionSegmentedLru K N) ConstraintCount D A R
    count_tiny_lfu_cache =
        count_constrained_cache (tiny_lfu_policy bitset key_hash filters)
          (segmented_lru_policy nodes protected_segment_size)

  -- A new sketch is an argument.
  module _ {N W : Type 0} (nodes : HashMap K ℕ N) (d : Double W) (key_hash : K → ℕ)
      (cost : K → Item V → W) (sketch : CountingBloomFilter) where
    abbrev pub memory_custom_cost_cache :
        Template K V InsertionAlways (EvictionGdsf K W N) ConstraintMemory D A R
    memory_custom_cost_cache =
        memory_constrained_cache always_policy
          (bind (λ hash c. gdsf_policy d nodes hash c sketch) cost key_hash)

    abbrev pub count_custom_cost_cache :
        Template K V InsertionAlways (EvictionGdsf K W N) ConstraintCount D A R
    count_custom_cost_cache =
        count_constrained_cache always_policy
          (bind (λ hash c. gdsf_policy d nodes hash c sketch) cost key_hash)

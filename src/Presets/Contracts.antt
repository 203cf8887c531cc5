-- ===== src/Presets/Contracts.antt =====
-- The contracts of the presets.
use cachemere.Common.{ℕ}
use cachemere.Common.Maps.{HashMap, HashMapLaws}
use cachemere.Item.{Item}
use cachemere.Filter.BitSet.{BitSet, BitSetLaws}
use cachemere.Constraint.Memory.{memory-ConstraintLaws}
use cachemere.Constraint.Count.{count-ConstraintLaws}
use cachemere.Insertion.Always.{always-InsertionLaws}
use cachemere.Insertion.TinyLfu.{InsertionTinyLfu}
use cachemere.Insertion.TinyLfu.Laws.{IsSized, tiny_lfu-InsertionLaws}
use cachemere.Eviction.Lru.Laws.{Inv as LruInv, lru-EvictionLaws}
use cachemere.Eviction.SegmentedLru.Touch.{Inv as SegmentedInv}
use cachemere.Eviction.SegmentedLru.Laws.{segmented_lru-EvictionLaws}
use cachemere.Double.{Double}
use cachemere.Filter.Counting.{CountingBloomFilter}
use cachemere.Filter.Counting.Totals.{IsUsable}
use cachemere.Eviction.Gdsf.Timely.{IsPriced}
use cachemere.Eviction.Gdsf.Priced.{TimelyState, gdsf-EvictionLaws}
use cachemere.Cache.{MeanAccumulator}
use cachemere.Cache.Invariant.{Contract}
use cachemere.Presets.{
  memory_lru_cache, count_lru_cache, memory_tiny_lfu_cache, count_tiny_lfu_cache,
  memory_custom_cost_cache, count_custom_cost_cache,
}

module _ {K V D A R : Type 0} {dec : Discrete K} (measure_value : V → ℕ) (measure_key : K → ℕ)
    {data_map : HashMap K (Item V) D} (map_laws : HashMapLaws dec data_map)
    (accumulator : MeanAccumulator A R) where
  module _ {N : Type 0} {nodes : HashMap K ℕ N} (node_laws : HashMapLaws dec nodes) where
    pub memory_lru_cache-Contract :
        Contract dec
          (memory_lru_cache measure_value measure_key data_map accumulator dec nodes)
          (λ s. Unit)
          (LruInv node_laws)
          (λ item. item.total_size)
          (λ c. c.memory)
          (λ c. c.maximum_memory)
    memory_lru_cache-Contract = record {
      insertion = always-InsertionLaws;
      eviction = lru-EvictionLaws node_laws;
      constraint = memory-ConstraintLaws;
      data_map = map_laws;
    }

    pub count_lru_cache-Contract :
        Contract dec
          (count_lru_cache measure_value measure_key data_map accumulator dec nodes)
          (λ s. Unit)
          (LruInv node_laws)
          (λ item. 1)
          (λ c. c.count)
          (λ c. c.maximum_count)
    count_lru_cache-Contract = record {
      insertion = always-InsertionLaws;
      eviction = lru-EvictionLaws node_laws;
      constraint = count-ConstraintLaws;
      data_map = map_laws;
    }

    module _ {B : Type 0} {bitset : BitSet B} (bit_laws : BitSetLaws bitset) (key_hash : K → ℕ)
        (filters : InsertionTinyLfu B) (sized : IsSized bit_laws filters) (segment_size : ℕ) where
      pub memory_tiny_lfu_cache-Contract :
          Contract dec
            (memory_tiny_lfu_cache measure_value measure_key data_map accumulator nodes bitset
              key_hash filters segment_size)
            (IsSized bit_laws)
            (SegmentedInv node_laws)
            (λ item. item.total_size)
            (λ c. c.memory)
            (λ c. c.maximum_memory)
      memory_tiny_lfu_cache-Contract = record {
        insertion = tiny_lfu-InsertionLaws bit_laws key_hash filters sized;
        eviction = segmented_lru-EvictionLaws node_laws segment_size;
        constraint = memory-ConstraintLaws;
        data_map = map_laws;
      }

      pub count_tiny_lfu_cache-Contract :
          Contract dec
            (count_tiny_lfu_cache measure_value measure_key data_map accumulator nodes bitset
              key_hash filters segment_size)
            (IsSized bit_laws)
            (SegmentedInv node_laws)
            (λ item. 1)
            (λ c. c.count)
            (λ c. c.maximum_count)
      count_tiny_lfu_cache-Contract = record {
        insertion = tiny_lfu-InsertionLaws bit_laws key_hash filters sized;
        eviction = segmented_lru-EvictionLaws node_laws segment_size;
        constraint = count-ConstraintLaws;
        data_map = map_laws;
      }

    module _ {W : Type 0} (d : Double W) (key_hash : K → ℕ) (cost : K → Item V → W)
        {IsEarly : ℕ → Type 0} (priced : IsPriced d cost measure_key IsEarly)
        (sketch : CountingBloomFilter) (usable : IsUsable sketch) where
      pub memory_custom_cost_cache-Contract :
          Contract dec
            (memory_custom_cost_cache measure_value measure_key data_map accumulator nodes d
              key_hash cost sketch)
            (λ s. Unit)
            (TimelyState node_laws d key_hash cost priced)
            (λ item. item.total_size)
            (λ c. c.memory)
            (λ c. c.maximum_memory)
      memory_custom_cost_cache-Contract = record {
        insertion = always-InsertionLaws;
        eviction = gdsf-EvictionLaws node_laws d key_hash cost priced sketch usable;
        constraint = memory-ConstraintLaws;
        data_map = map_laws;
      }

      pub count_custom_cost_cache-Contract :
          Contract dec
            (count_custom_cost_cache measure_value measure_key data_map accumulator nodes d key_hash
              cost sketch)
            (λ s. Unit)
            (TimelyState node_laws d key_hash cost priced)
            (λ item. 1)
            (λ c. c.count)
            (λ c. c.maximum_count)
      count_custom_cost_cache-Contract = record {
        insertion = always-InsertionLaws;
        eviction = gdsf-EvictionLaws node_laws d key_hash cost priced sketch usable;
        constraint = count-ConstraintLaws;
        data_map = map_laws;
      }

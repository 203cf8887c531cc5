-- ===== src/Presets/Views.antt =====
-- The TinyLFU preset with the functors of include/cachemere/hash.h and detail/transparent_eq.h, looked
-- up by views of its keys.
use cachemere.Common.{ℕ, ◌≡◌, refl, ◌⊎◌, inl, inr, Bool, none, some}
use cachemere.Common.Maps.{HashMap}
use cachemere.Common.Maps.Views.{ViewMap, AreConsistent, ViewMapLaws}
use cachemere.Hash.{single_hash, multi_hash, key_view, transparent_eq}
use cachemere.Item.{Item}
use cachemere.Filter.BitSet.{BitSet}
use cachemere.Constraint.Memory.{ConstraintMemory}
use cachemere.Insertion.TinyLfu.{InsertionTinyLfu, on_cache_miss}
use cachemere.Insertion.TinyLfu.Views.{miss_by_hash}
use cachemere.Eviction.SegmentedLru.{EvictionSegmentedLru}
use cachemere.Cache.{Cache, Template, MeanAccumulator}
use cachemere.Cache.Operations.{find, contains}
use cachemere.Cache.Views.{ViewHandlers, contains_by_view, find_by_view}
use cachemere.Cache.Views.Lookups.{StandsFor, contains_by_view-contains, find_by_view-find}
use cachemere.Presets.{memory_tiny_lfu_cache}

-- The functors of a map that is looked up by keys and by views of one type.
abbrev pub hash_either : {K Q : Type 0} → (K → ℕ) → (Q → ℕ) → K ⊎ Q → ℕ
hash_either key_hash view_hash = multi_hash key_hash (single_hash view_hash)

abbrev pub eq_view : {K Q : Type 0} → (K → K → Bool) → (Q → K → Bool) → K → Q → Bool
eq_view key_eq view_eq k q = transparent_eq key_eq view_eq (key_view k q)

module _ {K V Q B D N A R : Type 0} (dec : Discrete K) (measure_value : V → ℕ) (measure_key : K → ℕ)
    (data_map : HashMap K (Item V) D) (view : ViewMap Q K (Item V) D)
    (accumulator : MeanAccumulator A R) (nodes : HashMap K ℕ N) (bitset : BitSet B)
    (filters : InsertionTinyLfu B) (protected_segment_size : ℕ) (key_hash : K → ℕ)
    (view_hash : Q → ℕ) (key_eq : K → K → Bool) (view_eq : Q → K → Bool) where
  abbrev t : Template K V (InsertionTinyLfu B) (EvictionSegmentedLru K N) ConstraintMemory D A R
  t =
      memory_tiny_lfu_cache measure_value measure_key data_map accumulator nodes bitset
        (λ k. hash_either key_hash view_hash (inl k)) filters protected_segment_size

  -- Of its policies, only TinyLFU hears of misses.
  abbrev pub tiny_lfu_handlers :
      ViewHandlers Q (InsertionTinyLfu B) (EvictionSegmentedLru K N) ConstraintMemory
  tiny_lfu_handlers = record {
    insertion = some (on_cache_miss bitset (λ q. hash_either key_hash view_hash (inr q)));
    eviction = none;
    constraint = none;
  }

  -- On a cache of the memory-constrained TinyLFU preset, in any state, whose map takes its hash
  -- from `MultiHash` over keys and views and its comparison from `TransparentEq`, `find` and
  -- `contains` by a view do exactly what they do by the key that it stands for: they give the same
  -- answer, change the cache and the statistics alike, and fail alike. A view stands for a key if
  -- its `==` holds for that key and for no other; the hashes of a key and of a view that are equal
  -- are assumed to be equal, as Abseil asks, and so is what its lookups by a view then promise.
  pub memory_tiny_lfu-views :
      (c : Cache (InsertionTinyLfu B) (EvictionSegmentedLru K N) ConstraintMemory D A) (q : Q)
      (k : K)
      → ViewMapLaws (hash_either key_hash view_hash) (eq_view key_eq view_eq) data_map view
      → AreConsistent (hash_either key_hash view_hash) (eq_view key_eq view_eq)
      → StandsFor (eq_view key_eq view_eq) q k
      → (find_by_view t view tiny_lfu_handlers c q ≡ find dec t c k)
        × (contains_by_view t view tiny_lfu_handlers c q ≡ contains dec t c k)
  memory_tiny_lfu-views c q k laws consistent stands = (
    find_by_view-find dec t view tiny_lfu_handlers laws consistent c q k stands (record {
      insertion = λ s.
          miss_by_hash bitset s (λ j. hash_either key_hash view_hash (inl j))
            (λ p. hash_either key_hash view_hash (inr p)) k q (consistent k q ((stands k).1 refl));
      eviction = λ s. refl;
      constraint = λ s. refl;
    }),
    contains_by_view-contains dec t view tiny_lfu_handlers laws consistent c q k stands,
  )

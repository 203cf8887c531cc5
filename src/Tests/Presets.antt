-- ===== src/Tests/Presets.antt =====
-- The theorems on the presets, with the test data as keys, values and maps.
use cachemere.Common.{◌^◌, refl, ℕ, ◌≡◌, ◌≤◌, none, List, [], ◌∷◌, arith, ok, ℕ_discrete, inl, inr}
use cachemere.Common.Maps.Assoc.{Assoc, assoc_map, assoc_map-HashMapLaws}
use cachemere.Item.{Item, make_item}
use cachemere.Filter.BloomMath.{IsCastable}
use cachemere.Filter.BitSet.{Bits, function_bits, function_bits-BitSetLaws}
use cachemere.Filter.Counting.{CountingBloomFilter, make_counters}
use cachemere.Filter.Counting.Fresh.{make_counters_lem}
use cachemere.Constraint.Memory.{ConstraintMemory}
use cachemere.Constraint.Count.{ConstraintCount}
use cachemere.Insertion.Always.{InsertionAlways}
use cachemere.Insertion.TinyLfu.{InsertionTinyLfu, construct}
use cachemere.Insertion.TinyLfu.Cardinality.{set_cardinality_lem}
use cachemere.Eviction.Lru.{EvictionLru}
use cachemere.Eviction.SegmentedLru.{EvictionSegmentedLru}
use cachemere.Eviction.Gdsf.{EvictionGdsf}
use cachemere.Cache.{Cache}
use cachemere.Cache.Events.{new_item}
use cachemere.Cache.Operations.{create}
use cachemere.Cache.History.{Command, inserts, finds, asks, removes, clears, Reply, run}
use cachemere.Cache.History.Spec.{AreAllowed}
use cachemere.Cache.History.Answers.{contents, IsSmall}
use cachemere.Cache.History.Refinement.{AreTame}
use cachemere.Presets.{memory_lru_cache, memory_tiny_lfu_cache, count_custom_cost_cache}
use cachemere.Presets.Histories.{
  memory_lru-AreAllowed, memory_tiny_lfu-AreAllowed, count_custom_cost-AreAllowed,
}
use cachemere.Cache.{Template}
use cachemere.Tests.{samples}
use cachemere.Eviction.Gdsf.{h_coefficient}
use cachemere.Eviction.Gdsf.Timely.{IsPriced}
use cachemere.Tests.Doubles.{thousandths, thousandths-IsTruncated, capped, capped-IsTruncated}
use cachemere.Tests.Filters.{identity_hash}

castable : IsCastable thousandths-IsTruncated 2000
castable = record { sizes = omega arith; hashes = omega arith }

pub new_filters : (s : InsertionTinyLfu Bits) × (construct function_bits thousandths ≡ ok s)
new_filters =
    elim (set_cardinality_lem function_bits-BitSetLaws thousandths-IsTruncated identity_hash 2000
      castable) [
        | inl (refused, inl few_bits) ↦ absurd (ground (arith, few_bits))
        | inl (refused, inr few_hashes) ↦ absurd (ground (arith, few_hashes))
        | inr (s, made, new) ↦ (s, made)
      ]

capped-IsCastable : IsCastable capped-IsTruncated 2000
capped-IsCastable = record { sizes = omega arith; hashes = omega arith }

new_sketch : (b : CountingBloomFilter) × (make_counters capped 2000 ≡ ok b)
new_sketch = elim (make_counters_lem capped-IsTruncated identity_hash 2000 capped-IsCastable) [
  | inl (refused, inl few_bits) ↦ absurd (ground (arith, few_bits))
  | inl (refused, inr few_hashes) ↦ absurd (ground (arith, few_hashes))
  | inr (b, made, usable, nonzero, unseen) ↦ (b, made)
]

abbrev commands : List (Command ℕ ℕ)
commands = finds 1 ∷ inserts 1 40 ∷ finds 1 ∷ inserts 2 50 ∷ removes 1 ∷ asks 2 ∷ clears ∷ []

abbrev Nodes : Type 0
Nodes = Assoc ℕ_discrete ℕ

abbrev tiny_lfu :
    Template ℕ ℕ
      (InsertionTinyLfu Bits)
      (EvictionSegmentedLru ℕ Nodes)
      ConstraintMemory
      (Assoc ℕ_discrete (Item ℕ))
      (List ℕ)
      (List ℕ)
tiny_lfu =
    memory_tiny_lfu_cache (λ v. v) (λ k. 1) (assoc_map ℕ_discrete) samples (assoc_map ℕ_discrete)
      function_bits identity_hash new_filters.0 1

tiny_lfu-AreTame : AreTame tiny_lfu (λ item. item.total_size) Unit 100 commands
unfolding new_item make_item
tiny_lfu-AreTame =
    (tt, (small 1 40 (omega arith), (tt, (small 2 50 (omega arith), (tt, (tt, (tt, tt)))))))
  where
    small : (k v : ℕ) → v ≤ 100 → IsSmall tiny_lfu (λ item. item.total_size) 100 k v
    small k v le = record { sizes = omega arith; sums = omega arith }

memory_tiny_lfu-AreAllowed_example :
    (c' : Cache
      (InsertionTinyLfu Bits)
      (EvictionSegmentedLru ℕ Nodes)
      ConstraintMemory
      (Assoc ℕ_discrete (Item ℕ))
      (List ℕ))
    × (replies : List (Reply ℕ ℕ)) × (run ℕ_discrete tiny_lfu commands
          (create ℕ_discrete tiny_lfu 100)
        ≡ ok (c', replies))
    × (c'.constraint_policy.memory ≤ 100)
    × AreAllowed ℕ_discrete (λ k. none) (contents tiny_lfu c') commands replies
memory_tiny_lfu-AreAllowed_example =
    memory_tiny_lfu-AreAllowed (λ v. v) (λ k. 1) (assoc_map-HashMapLaws ℕ_discrete) samples
      (assoc_map-HashMapLaws ℕ_discrete) identity_hash thousandths-IsTruncated
      function_bits-BitSetLaws new_filters.0 1 100 commands castable new_filters.1 (omega arith)
      tiny_lfu-AreTame

abbrev custom_cost :
    Template ℕ ℕ InsertionAlways
      (EvictionGdsf ℕ ℕ Nodes)
      ConstraintCount
      (Assoc ℕ_discrete (Item ℕ))
      (List ℕ)
      (List ℕ)
custom_cost =
    count_custom_cost_cache (λ v. v) (λ k. 1) (assoc_map ℕ_discrete) samples (assoc_map ℕ_discrete)
      capped identity_hash (λ k item. 12) new_sketch.0

custom_cost-AreTame : AreTame custom_cost (λ item. 1) Unit 1 commands
custom_cost-AreTame =
    (tt, (small 1 40 (omega arith), (tt, (small 2 50 (omega arith), (tt, (tt, (tt, tt)))))))
  where
    small : (k v : ℕ) → v ≤ 100 → IsSmall custom_cost (λ item. 1) 1 k v
    small k v le = record { sizes = omega arith; sums = omega arith }

abbrev IsEarly : ℕ → Type 0
IsEarly clock = clock ≤ 2 ^ 60

costs-IsPriced : IsPriced capped (λ (k : ℕ) (item : Item ℕ). 12) (λ k. 1) IsEarly
unfolding h_coefficient
costs-IsPriced = record {
  starts = omega arith;
  is_number = λ clock count k item early small sizes. refl;
  fits = λ clock count k item early small sizes. ground arith;
  stays = λ clock count k item early small sizes. ground arith;
}

count_custom_cost-AreAllowed_example :
    (c' : Cache InsertionAlways
      (EvictionGdsf ℕ ℕ Nodes)
      ConstraintCount
      (Assoc ℕ_discrete (Item ℕ))
      (List ℕ))
    × (replies : List (Reply ℕ ℕ)) × (run ℕ_discrete custom_cost commands
          (create ℕ_discrete custom_cost 1)
        ≡ ok (c', replies))
    × (c'.constraint_policy.count ≤ 1)
    × AreAllowed ℕ_discrete (λ k. none) (contents custom_cost c') commands replies
count_custom_cost-AreAllowed_example =
    count_custom_cost-AreAllowed (λ v. v) (λ k. 1) (assoc_map-HashMapLaws ℕ_discrete) samples
      (assoc_map-HashMapLaws ℕ_discrete) identity_hash capped-IsTruncated (λ k item. 12)
      new_sketch.0 1 commands costs-IsPriced capped-IsCastable new_sketch.1 (omega arith)
      custom_cost-AreTame

-- A history of a cache whose eviction policy may not be asked to let go of any key.
abbrev lookups : List (Command ℕ ℕ)
lookups = finds 1 ∷ inserts 1 40 ∷ inserts 2 50 ∷ finds 1 ∷ inserts 3 60 ∷ asks 2 ∷ []

abbrev lru :
    Template ℕ ℕ InsertionAlways
      (EvictionLru ℕ Nodes)
      ConstraintMemory
      (Assoc ℕ_discrete (Item ℕ))
      (List ℕ)
      (List ℕ)
lru =
    memory_lru_cache (λ v. v) (λ k. 1) (assoc_map ℕ_discrete) samples ℕ_discrete
      (assoc_map ℕ_discrete)

lookups-AreTame : AreTame lru (λ item. item.total_size) ⊥ 100 lookups
unfolding new_item make_item
lookups-AreTame = (
  tt,
  (
    small 1 40 (omega arith),
    (small 2 50 (omega arith), (tt, (small 3 60 (omega arith), (tt, tt)))),
  ),
)
  where
    small : (k v : ℕ) → v ≤ 100 → IsSmall lru (λ item. item.total_size) 100 k v
    small k v le = record { sizes = omega arith; sums = omega arith }

memory_lru-AreAllowed_example :
    (c' : Cache InsertionAlways
      (EvictionLru ℕ Nodes)
      ConstraintMemory
      (Assoc ℕ_discrete (Item ℕ))
      (List ℕ))
    × (replies : List (Reply ℕ ℕ)) × (run ℕ_discrete lru lookups (create ℕ_discrete lru 100)
        ≡ ok (c', replies))
    × (c'.constraint_policy.memory ≤ 100)
    × AreAllowed ℕ_discrete (λ k. none) (contents lru c') lookups replies
memory_lru-AreAllowed_example =
    memory_lru-AreAllowed (λ v. v) (λ k. 1) (assoc_map-HashMapLaws ℕ_discrete) samples
      (assoc_map-HashMapLaws ℕ_discrete) 100 lookups (omega arith) lookups-AreTame

-- ===== src/Tests/Policies.antt =====
-- The theorems on the policies at small states.
use cachemere.Common.{
  ℕ, suc, ◌+◌, ◌%◌, ◌≤◌, ◌<◌, max, ◌≡◌, ◌⊎◌, refl, true, false, none, [], ◌∷◌, ◌++◌, reverse, arith,
  ok, fault, assertion_failed, length, contains, ℕ_discrete,
}
use mathlib.Core.List.{erase, lookup}
use cachemere.Common.Maps.{HashMapLaws}
use cachemere.Common.Maps.Assoc.{Assoc, put, assoc_map, assoc_map-HashMapLaws}
use cachemere.Item.{Item}
use cachemere.Measurement.{measure_capacity, sizeof_pointer, measure_capacity_bounds}
use cachemere.Constraint.Memory
use cachemere.Constraint.Memory.{
  ConstraintMemory, can_replace, on_update, memory_insert-evict, memory_replace-update,
}
use cachemere.Constraint.Count.{ConstraintCount}
use cachemere.LinkedList.{Nodes, back}
use cachemere.LinkedList.Index.{IsIndexed, empty-IsIndexed, front-IsIndexed}
use cachemere.Eviction.Lru.{EvictionLru}
use cachemere.Eviction.Lru
use cachemere.Eviction.Lru.Laws.{recency, lru_insert_lem, lru_hit_lem, lru_evict_lem}
use cachemere.Eviction.Lru.Laws
use cachemere.Eviction.Lru.Dangling.{on_evict-dangling}
use cachemere.Eviction.SegmentedLru.{EvictionSegmentedLru}
use cachemere.Eviction.SegmentedLru
use cachemere.Eviction.SegmentedLru.Iterator.{walk}
use cachemere.Eviction.SegmentedLru.Moves.{probation_keys, protected_keys}
use cachemere.Eviction.SegmentedLru.Touch.{Inv}
use cachemere.Eviction.SegmentedLru.Hit.{segments, promote, segmented_hit_lem}
use cachemere.Eviction.SegmentedLru.Resize.{resized_hit_lem}
use cachemere.Eviction.SegmentedLru.Victims.{iterate_lem}
use cachemere.Eviction.SegmentedLru.Evict.{segmented_evict_lem}

abbrev pub item_of : ℕ → Item ℕ
item_of n = record { key_size = 1; value = n; value_size = n; total_size = suc n }

abbrev pub NodeMap : Type 0
NodeMap = Assoc ℕ_discrete ℕ

abbrev pub node_laws : HashMapLaws ℕ_discrete (assoc_map {A = ℕ} ℕ_discrete)
node_laws = assoc_map-HashMapLaws ℕ_discrete

abbrev no_nodes : NodeMap
no_nodes = (assoc_map ℕ_discrete).empty

-- Keys 8 and 7, 8 used last.
abbrev two_keys : Nodes ℕ
two_keys = (1, 8) ∷ (0, 7) ∷ []

abbrev two_nodes : NodeMap
two_nodes = put ℕ_discrete (put ℕ_discrete no_nodes 7 0) 8 1

two_keys-IsIndexed : IsIndexed node_laws two_keys two_nodes 3
unfolding lookup ℕ_discrete
two_keys-IsIndexed =
    front-IsIndexed node_laws ((0, 7) ∷ []) (put ℕ_discrete no_nodes 7 0) 3 1 8
      (front-IsIndexed node_laws [] no_nodes 3 0 7 (empty-IsIndexed node_laws 3) refl refl
        (omega arith))
      refl refl (omega arith)

abbrev lru_two : EvictionLru ℕ NodeMap
lru_two = record { keys = two_keys; nodes = two_nodes; next_node = 3 }

-- The same keys on probation, and 9 in a protected segment of one.
abbrev segmented_three : EvictionSegmentedLru ℕ NodeMap
segmented_three = record {
  protected_segment_size = 1;
  probation_list = two_keys;
  probation_nodes = two_nodes;
  protected_list = (2, 9) ∷ [];
  protected_nodes = put ℕ_discrete no_nodes 9 2;
  next_node = 3;
}

segmented_three-Inv : Inv node_laws segmented_three
unfolding lookup ℕ_discrete
segmented_three-Inv = record {
  segmented = record {
    probation = two_keys-IsIndexed;
    protected =
        front-IsIndexed node_laws [] no_nodes 3 2 9 (empty-IsIndexed node_laws 3) refl refl
          (omega arith);
    apart = record { by_id = λ i. ground arith; by_key = λ k. ground arith };
  };
  bounded = omega arith;
}

lru_hit_lem_example :
    (s' : EvictionLru ℕ NodeMap) × (Lru.on_cache_hit ℕ_discrete
        (assoc_map ℕ_discrete)
        lru_two
        7
        (item_of 3)
      ≡ ok s')
    × Lru.Laws.Inv node_laws s'
    × (recency node_laws s' ≡ 7 ∷ erase ℕ_discrete (recency node_laws lru_two) 7)
unfolding ℕ_discrete
lru_hit_lem_example = lru_hit_lem node_laws lru_two 7 (item_of 3) two_keys-IsIndexed refl

lru_evict_lem_example :
    (s' : EvictionLru ℕ NodeMap) × (Lru.on_evict ℕ_discrete
        (assoc_map ℕ_discrete)
        lru_two
        7
        (item_of 3)
      ≡ ok s')
    × Lru.Laws.Inv node_laws s'
    × (Lru.victims s' ≡ 8 ∷ [])
unfolding Lru.victims
lru_evict_lem_example =
    lru_evict_lem node_laws lru_two 7 (8 ∷ []) (item_of 3) two_keys-IsIndexed refl

on_evict-dangling_example :
    (s' : EvictionLru ℕ NodeMap) × (Lru.on_evict ℕ_discrete
        (assoc_map ℕ_discrete)
        lru_two
        8
        (item_of 3)
      ≡ ok s')
    × (contains ℕ_discrete 8 (Lru.victims s') ≡ true)
    × (lookup ℕ_discrete 8 s'.nodes.items ≡ none)
    × (¬ Lru.Laws.Inv node_laws s')
unfolding lookup ℕ_discrete back
on_evict-dangling_example =
    on_evict-dangling node_laws lru_two 8 1 (0, 7) (item_of 3) two_keys-IsIndexed refl refl
      (omega arith)

iterate_lem_example :
    SegmentedLru.iterate segmented_three
    ≡ ok (
        reverse (probation_keys node_laws segmented_three)
        ++ reverse (protected_keys node_laws segmented_three))
iterate_lem_example = iterate_lem node_laws segmented_three

segmented_hit_lem_example :
    (s' : EvictionSegmentedLru ℕ NodeMap) × (SegmentedLru.on_cache_hit
        (assoc_map ℕ_discrete)
        segmented_three
        7
        (item_of 3)
      ≡ ok s')
    × Inv node_laws s'
    × (segments node_laws s'
        ≡ promote ℕ_discrete segmented_three.protected_segment_size 7
            (segments node_laws segmented_three))
    × (s'.protected_segment_size ≡ segmented_three.protected_segment_size)
unfolding ℕ_discrete
segmented_hit_lem_example =
    segmented_hit_lem node_laws segmented_three 7 (item_of 3) segmented_three-Inv refl

resized_hit_lem_example :
    ((length (erase ℕ_discrete (protected_keys node_laws segmented_three) 7) ≤ 0)
      × ((s' : EvictionSegmentedLru ℕ NodeMap) × (SegmentedLru.on_cache_hit
              (assoc_map ℕ_discrete)
              (SegmentedLru.set_protected_segment_size segmented_three 0)
              7
              (item_of 3)
            ≡ ok s')
          × Inv node_laws s'
          × (segments node_laws s' ≡ promote ℕ_discrete 0 7 (segments node_laws segmented_three))))
    ⊎ ((0 < length (erase ℕ_discrete (protected_keys node_laws segmented_three) 7))
        × (SegmentedLru.on_cache_hit
              (assoc_map ℕ_discrete)
              (SegmentedLru.set_protected_segment_size segmented_three 0)
              7
              (item_of 3)
            ≡ fault assertion_failed))
unfolding ℕ_discrete
resized_hit_lem_example =
    resized_hit_lem node_laws segmented_three 0 7 (item_of 3) segmented_three-Inv refl

segmented_evict_lem_example :
    (s' : EvictionSegmentedLru ℕ NodeMap) × (SegmentedLru.on_evict
        (assoc_map ℕ_discrete)
        segmented_three
        9
        (item_of 3)
      ≡ ok s')
    × Inv node_laws s'
    × (SegmentedLru.victims s' ≡ erase ℕ_discrete (SegmentedLru.victims segmented_three) 9)
unfolding SegmentedLru.victims SegmentedLru.iterate walk ℕ_discrete
segmented_evict_lem_example =
    segmented_evict_lem node_laws segmented_three 9 (item_of 3) segmented_three-Inv refl

abbrev key : ℕ
key = 1

abbrev memory_50 : ConstraintMemory
memory_50 = record { maximum_memory = 100; memory = 50 }

memory_insert-evict_example :
    (c' : ConstraintMemory) × (Memory.on_insert memory_50 key (item_of 30) ≡ ok c')
    × (c'.memory ≤ c'.maximum_memory)
    × (Memory.on_evict c' key (item_of 30) ≡ ok memory_50)
unfolding Memory.can_add
memory_insert-evict_example =
    memory_insert-evict memory_50 key (item_of 30) (omega arith) (omega arith) refl

memory_replace-update_example :
    (can_replace memory_50 key (item_of 30) (item_of 60) ≡ ok false)
    ⊎ ((c' : ConstraintMemory) × (can_replace memory_50 key (item_of 30) (item_of 60) ≡ ok true)
        × (on_update memory_50 key (item_of 30) (item_of 60) ≡ ok c')
        × (c'.memory ≤ c'.maximum_memory)
        × (c'.memory + (item_of 30).total_size ≡ memory_50.memory + (item_of 60).total_size))
memory_replace-update_example =
    memory_replace-update memory_50 key (item_of 30) (item_of 60) (omega arith) (omega arith)
      (omega arith) (omega arith) (omega arith) refl

abbrev count_1 : ConstraintCount
count_1 = record { maximum_count = 2; count = 1 }

measure_capacity_bounds_example :
    (30 ≤ measure_capacity 30)
    × (((30 < 1024)
          × (measure_capacity 30 % sizeof_pointer ≡ 0)
          × (16 ≤ measure_capacity 30)
          × (measure_capacity 30 ≤ max 16 (30 + 7)))
        ⊎ ((1024 ≤ 30) × (measure_capacity 30 ≡ 30)))
measure_capacity_bounds_example = measure_capacity_bounds 30

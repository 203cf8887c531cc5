-- ===== src/Tests/Gdsf.antt =====
-- The theorems on the GDSF policy, with a cost of twelve thousandths for every item.
use mathlib.Core.List.{erase, lookup}
use cachemere.Common.{
  ℕ, max, ◌⊎◌, inl, inr, fault, undefined_behaviour, ◌≡◌, refl, true, false, some, [], ◌∷◌, arith,
  ok, contains, erase_key, ℕ_discrete,
}
use cachemere.Common.Maps.Assoc.{put, assoc_map}
use cachemere.Item.{Item}
use cachemere.Eviction.Gdsf.{EvictionGdsf, on_insert, on_cache_hit, on_evict, initial, victims}
use cachemere.Eviction.Gdsf.Priorities.{PriorityEntry, PrioritySet, entry_at, emplace}
use cachemere.Eviction.Gdsf.Placing.{Inv, Places}
use cachemere.Eviction.Gdsf.Handlers.{without_entry, gdsf_insert_lem, gdsf_hit_lem, gdsf_evict_lem}
use cachemere.Eviction.Gdsf.Reachable.{inserts, start, next, IsOrderly, gdsf_reach-IsOrderly}
use cachemere.Eviction.Gdsf.Laws.{initial-Inv}
use cachemere.LinkedList.Index.{empty-IsIndexed}
use cachemere.Eviction.Gdsf.Indexed.{IsTracked, emplace-IsTracked}
use cachemere.Tests.Doubles.{thousandths, thousandths-IsOrdered}
use cachemere.Tests.Filters.{eight_counters, identity_hash}
use cachemere.Tests.Policies.{NodeMap, node_laws, item_of}

abbrev cost : ℕ → Item ℕ → ℕ
cost k item = 12

abbrev GdsfState : Type 0
GdsfState = EvictionGdsf ℕ ℕ NodeMap

abbrev no_keys : GdsfState
no_keys = initial (assoc_map ℕ_discrete) eight_counters

no_keys-Inv : Inv node_laws no_keys
no_keys-Inv =
    initial-Inv node_laws eight_counters (record { counters = omega arith; hashes = omega arith })

no_keys-victims : contains ℕ_discrete 5 (victims no_keys) ≡ false
unfolding initial victims
no_keys-victims = refl

-- Key 5 in an empty policy.
first_key :
    (s' : GdsfState) × (on_insert thousandths
        (assoc_map ℕ_discrete)
        identity_hash
        cost
        no_keys
        5
        (item_of 3)
      ≡ ok s')
first_key =
    let (sketch, count, added, counted, outcome) =
      gdsf_insert_lem node_laws thousandths identity_hash cost no_keys 5 (item_of 3) no_keys-Inv
        no_keys-victims in
    elim outcome [
      | inl (number, (s', run, placed)) ↦ (s', run)
      | inr (nan, failed) ↦ absurd (ground (arith, nan))
    ]

-- Key 5 with a coefficient of 3, then key 7 with one of 8.
abbrev two_entries : PrioritySet ℕ ℕ
two_entries =
    (1, record { key = 5; h_coefficient = 3000 })
    ∷ (0, record { key = 7; h_coefficient = 8000 })
    ∷ []

abbrev node_7 : NodeMap
node_7 = put ℕ_discrete (assoc_map ℕ_discrete).empty 7 0

abbrev two_held : GdsfState
two_held = record {
  frequency_sketch = eight_counters;
  priority_set = two_entries;
  iterator_map = put ℕ_discrete node_7 5 1;
  clock = 2;
  next_node = 2;
}

two_entries-IsTracked : IsTracked node_laws two_entries (put ℕ_discrete node_7 5 1) 2
unfolding lookup ℕ_discrete emplace
two_entries-IsTracked =
    emplace-IsTracked node_laws thousandths ((0, record { key = 7; h_coefficient = 8000 }) ∷ [])
      node_7 (put ℕ_discrete node_7 5 1) 1 5 3000
      (emplace-IsTracked node_laws thousandths [] (assoc_map ℕ_discrete).empty node_7 0 7 8000
        (empty-IsIndexed node_laws 0) refl
        (λ j. node_laws.find-insert_or_assign (assoc_map ℕ_discrete).empty 7 j 0))
      refl (λ j. node_laws.find-insert_or_assign node_7 5 j 1)

two_held-Inv : Inv node_laws two_held
two_held-Inv = record {
  sketch = record { counters = omega arith; hashes = omega arith };
  tracked = two_entries-IsTracked;
}

two_held-victims : contains ℕ_discrete 7 (victims two_held) ≡ true
unfolding victims ℕ_discrete
two_held-victims = refl

gdsf_hit_lem_example :
    (it : ℕ) × ((assoc_map ℕ_discrete).find two_held.iterator_map 7 ≡ some it)
    × Places node_laws thousandths identity_hash cost
        (without_entry node_laws thousandths identity_hash cost two_held it)
        7
        (item_of 3)
        (on_cache_hit thousandths (assoc_map ℕ_discrete) identity_hash cost two_held 7 (item_of 3))
gdsf_hit_lem_example =
    gdsf_hit_lem node_laws thousandths identity_hash cost two_held 7 (item_of 3) two_held-Inv
      two_held-victims

gdsf_evict_lem_example :
    (it : ℕ) × (entry : PriorityEntry ℕ ℕ) × ((assoc_map ℕ_discrete).find two_held.iterator_map 7
      ≡ some it)
    × (entry_at it two_held.priority_set ≡ some entry)
    × (((thousandths.in_u64 entry.h_coefficient ≡ true)
          × ((s' : GdsfState) × (on_evict thousandths
                  (assoc_map ℕ_discrete)
                  identity_hash
                  cost
                  two_held
                  7
                  (item_of 3)
                ≡ ok s')
              × Inv node_laws s'
              × (victims s' ≡ erase ℕ_discrete (victims two_held) 7)
              × (s'.priority_set ≡ erase_key ℕ_discrete it two_held.priority_set)
              × (s'.frequency_sketch ≡ two_held.frequency_sketch)
              × (s'.clock ≡ max two_held.clock (thousandths.to_u64 entry.h_coefficient))))
        ⊎ ((thousandths.in_u64 entry.h_coefficient ≡ false)
            × (on_evict thousandths (assoc_map ℕ_discrete) identity_hash cost two_held 7 (item_of 3)
                ≡ fault undefined_behaviour)))
gdsf_evict_lem_example =
    gdsf_evict_lem node_laws thousandths identity_hash cost two_held 7 (item_of 3) two_held-Inv
      two_held-victims

-- The state after key 5 has been inserted into an empty one.
abbrev one_key : GdsfState
one_key = first_key.0

gdsf_reach-IsOrderly_example :
    IsOrderly node_laws thousandths identity_hash cost thousandths-IsOrdered
      (λ clock count k item size. tt)
      one_key
gdsf_reach-IsOrderly_example =
    gdsf_reach-IsOrderly node_laws thousandths identity_hash cost thousandths-IsOrdered
      (λ clock count k item size. tt) eight_counters
      (record { counters = omega arith; hashes = omega arith })
      (next start (inserts 5 (item_of 3) no_keys-victims (omega arith) first_key.1))

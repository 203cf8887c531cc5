-- ===== src/Tests/Caches.antt =====
-- The theorems on the cache at the test data: two items, no room for a third one.
use mathlib.Core.Option
use cachemere.Common.{
  Option, refl, ℕ, ◌+◌, ◌<◌, ◌≡◌, ◌⊎◌, ite, true, false, none, some, List, ◌++◌, arith, ok,
  contains, if◌then◌else◌, ltb, ℕ_discrete,
}
use cachemere.Item.{Item, make_item}
use mathlib.Core.List.{lookup}
use cachemere.Constraint.Memory
use cachemere.Constraint.Memory.{construct, update, can_add}
use cachemere.Eviction.SegmentedLru
use cachemere.Eviction.SegmentedLru.{emplace, initial}
use cachemere.Cache.Events.{new_item, insert_or_update, on_insert, notify_all}
use cachemere.Cache.Admission.{check_insert, check_replace, can_replace_now}
use cachemere.Cache.Operations
use cachemere.Cache.Operations.{
  create, insert, find, remove, clear, retain, update_constraint, import, create_from,
}
use cachemere.Cache.Insertion.{Valid}
use cachemere.Cache.Insertion.Insert.{Inserted, IsRefused, insert_lem}
use cachemere.Cache.Evictions.{Evicted, IsMinimal, keys, Last}
use cachemere.Cache.Evictions.Insert.{
  IsOutranked, IsPreferred, IsFull, IsRefusedNow, IsWelcome, IsNeeded, check_insert_lem,
}
use cachemere.Cache.Evictions.Replace.{check_replace_lem}
use cachemere.Cache.Lookups.{Read, bytes_of, find_lem}
use cachemere.Cache.Removals.{Filtered, keep_if, remove_lem, retain_lem}
use cachemere.Cache.Shrinking.{IsOver, update_constraint_lem}
use cachemere.Cache.Lifecycle.Import.{IsStopped, overlay, import_lem, create_from_lem}
use cachemere.Tests.{
  NumberCache, numbers, numbers-Contract, numbers-RemovalLaws, empty_cache, pairs, two_items,
  empty_cache-Valid, two_items-Valid, two_items-limit, pairs-AllHaveRoom, HasRoom-small,
}

abbrev data_map_find : NumberCache → ℕ → Option (Item ℕ)
data_map_find c k = numbers.data_map.find c.items k

abbrev victims : NumberCache → List ℕ
victims c = numbers.eviction.victims c.eviction_policy

insert_lem_example :
    ((insert ℕ_discrete numbers two_items 3 60 ≡ ok (two_items, false))
      × IsRefused numbers-Contract two_items 3 60)
    ⊎ ((es : List (ℕ × Item ℕ)) × (c' : NumberCache) × (insert ℕ_discrete numbers two_items 3 60
          ≡ ok (c', true))
        × Inserted numbers-Contract two_items 3 60 es c')
insert_lem_example =
    insert_lem numbers-Contract two_items 3 60 two_items-Valid
      (HasRoom-small two_items 3 60 (omega (arith, two_items-limit)) (omega arith))

update_constraint_lem_example :
    (es : List (ℕ × Item ℕ)) × (c' : NumberCache) × (update_constraint ℕ_discrete numbers two_items
        60
      ≡ ok c')
    × Valid numbers-Contract c'
    × (c'.constraint_policy.maximum_memory ≡ 60)
    × Last numbers-Contract (IsOver numbers-Contract c'.constraint_policy) es
    × (victims two_items ≡ keys numbers-Contract es ++ victims c')
    × ((j : ℕ)
        → data_map_find c' j ≡ (
            if contains ℕ_discrete j (keys numbers-Contract es)
            then none
            else data_map_find two_items j))
update_constraint_lem_example =
    update_constraint_lem numbers-Contract two_items 60 two_items-Valid (omega arith)

find_lem_example :
    (c' : NumberCache) × (find ℕ_discrete numbers two_items 1
      ≡ ok (c', Option.map (λ item. item.value) (data_map_find two_items 1)))
    × Read numbers-Contract two_items
        (if Operations.contains ℕ_discrete numbers two_items 1 then 1 else 0)
        (bytes_of numbers-Contract (data_map_find two_items 1))
        c'
find_lem_example = find_lem numbers-Contract two_items 1 two_items-Valid

remove_lem_example :
    (c' : NumberCache) × (remove ℕ_discrete numbers two_items 2
      ≡ ok (c', Operations.contains ℕ_discrete numbers two_items 2))
    × Filtered numbers-Contract numbers-RemovalLaws two_items
        (λ j found. ite (ℕ_discrete 2 j) none found)
        c'
remove_lem_example = remove_lem numbers-Contract numbers-RemovalLaws two_items 2 two_items-Valid

retain_lem_example :
    (c' : NumberCache) × (retain ℕ_discrete numbers (λ k v. ltb v 45) two_items ≡ ok c')
    × Filtered numbers-Contract numbers-RemovalLaws two_items
        (keep_if numbers-Contract numbers-RemovalLaws (λ k v. ltb v 45))
        c'
retain_lem_example =
    retain_lem numbers-Contract numbers-RemovalLaws (λ k v. ltb v 45) two_items two_items-Valid

import_lem_example :
    (stored rest : List (ℕ × ℕ)) × (c' : NumberCache) × (import ℕ_discrete numbers pairs empty_cache
      ≡ ok c')
    × Valid numbers-Contract c'
    × (c'.constraint_policy.maximum_memory ≡ empty_cache.constraint_policy.maximum_memory)
    × (pairs ≡ stored ++ rest)
    × IsStopped numbers-Contract c' rest
    × ((j : ℕ)
        → data_map_find c' j ≡ overlay numbers-Contract stored j (data_map_find empty_cache j))
import_lem_example =
    import_lem numbers-Contract pairs empty_cache empty_cache-Valid pairs-AllHaveRoom

create_from_lem_example :
    (stored rest : List (ℕ × ℕ)) × (c' : NumberCache) × (create_from ℕ_discrete numbers pairs 100
      ≡ ok c')
    × Valid numbers-Contract c'
    × (c'.constraint_policy.maximum_memory ≡ 100)
    × (pairs ≡ stored ++ rest)
    × IsStopped numbers-Contract c' rest
    × ((j : ℕ) → data_map_find c' j ≡ overlay numbers-Contract stored j none)
create_from_lem_example = create_from_lem numbers-Contract pairs 100 (omega arith) pairs-AllHaveRoom

check_insert_lem_example :
    ((check_insert ℕ_discrete numbers two_items 3 (new_item numbers 3 60) ≡ ok (two_items, false))
      × ((((numbers.constraint.can_add two_items.constraint_policy 3 (new_item numbers 3 60) ≡ true)
              × (numbers.insertion.should_add two_items.insertion_policy 3 ≡ ok false))
            ⊎ IsOutranked numbers-Contract
                (IsFull numbers-Contract 3 (new_item numbers 3 60))
                two_items
                3)
          ⊎ (two_items.constraint_policy.maximum_memory < (new_item numbers 3 60).total_size)))
    ⊎ ((es : List (ℕ × Item ℕ)) × (c' : NumberCache) × (check_insert ℕ_discrete numbers two_items 3
            (new_item numbers 3 60)
          ≡ ok (c', true))
        × Evicted numbers-Contract two_items es c'
        × IsWelcome numbers-Contract two_items 3 (new_item numbers 3 60) es
        × (numbers.constraint.can_add c'.constraint_policy 3 (new_item numbers 3 60) ≡ true)
        × Last numbers-Contract
            (IsNeeded numbers-Contract (new_item numbers 3 60) c'.constraint_policy)
            es)
check_insert_lem_example =
    check_insert_lem numbers-Contract two_items 3 (new_item numbers 3 60) two_items-Valid
      (HasRoom-small two_items 3 60 (omega (arith, two_items-limit)) (omega arith)).sums

first_item : numbers.data_map.find two_items.items 1 ≡ some (new_item numbers 1 40)
unfolding import create insert_or_update new_item make_item on_insert construct update can_add
    Memory.on_insert SegmentedLru.on_insert emplace initial lookup notify_all ℕ_discrete
first_item = refl

same_key_size : (new_item numbers 1 40).key_size ≡ (new_item numbers 1 70).key_size
unfolding new_item make_item
same_key_size = refl

new_size :
    (new_item numbers 1 70).total_size
    ≡ (new_item numbers 1 70).key_size + (new_item numbers 1 70).value_size
unfolding new_item make_item
new_size = refl

check_replace_lem_example :
    ((check_replace ℕ_discrete numbers two_items 1 (new_item numbers 1 40) (new_item numbers 1 70)
        ≡ ok (two_items, false))
      × (IsOutranked numbers-Contract
            (IsRefusedNow numbers-Contract 1 (new_item numbers 1 40) (new_item numbers 1 70))
            two_items
            1
          ⊎ (two_items.constraint_policy.maximum_memory < (new_item numbers 1 70).total_size)))
    ⊎ ((es : List (ℕ × Item ℕ)) × (c' : NumberCache) × (check_replace ℕ_discrete numbers two_items 1
            (new_item numbers 1 40)
            (new_item numbers 1 70)
          ≡ ok (c', true))
        × Evicted numbers-Contract two_items es c'
        × IsPreferred numbers-Contract two_items 1 es
        × IsMinimal numbers-Contract
            (IsRefusedNow numbers-Contract 1 (new_item numbers 1 40) (new_item numbers 1 70))
            two_items
            es
        × (can_replace_now ℕ_discrete numbers 1
              (new_item numbers 1 40)
              (new_item numbers 1 70)
              c'.constraint_policy
              (contains ℕ_discrete 1 (keys numbers-Contract es))
            ≡ ok true))
check_replace_lem_example =
    check_replace_lem numbers-Contract two_items 1 (new_item numbers 1 40) (new_item numbers 1 70)
      two_items-Valid first_item
      (HasRoom-small two_items 1 70 (omega (arith, two_items-limit)) (omega arith)).sums new_size
      same_key_size

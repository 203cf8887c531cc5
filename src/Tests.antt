-- ===== src/Tests.antt =====
-- Test data: a cache from numbers to numbers, where a key measures one byte and a value as many as
-- its number says, with at most 100 bytes, the segmented eviction policy with a protected segment
-- of one key, and association lists as hash maps.
mod Caches
mod Policies
mod Filters
mod Gdsf
mod Doubles
mod History
mod Presets
mod Threads
mod Swaps
mod Locks
mod Linear
mod Views
use cachemere.Common.{
  ℕ, ◌+◌, ◌≤◌, ◌<◌, ◌≡◌, refl, sym, true, some, List, [], ◌∷◌, ◌++◌, arith, Outcome, ok, fault,
  subst, ℕ_discrete,
}
use cachemere.Common.Maps.Assoc.{Assoc, assoc_map, assoc_map-HashMapLaws}
use cachemere.Item.{Item, make_item}
use cachemere.Cache.Events.{new_item, on_insert, notify_all, insert_or_update}
use cachemere.Constraint.Memory.{
  ConstraintMemory, construct, update, can_add, memory_policy, memory-ConstraintLaws,
}
use cachemere.Eviction.SegmentedLru.{
  EvictionSegmentedLru, emplace, initial, iterate, victims, segmented_lru_policy,
}
use cachemere.Eviction.SegmentedLru.Touch.{Inv}
use cachemere.Eviction.SegmentedLru.Laws.{segmented_lru-EvictionLaws, segmented_lru-RemovalLaws}
use cachemere.Insertion.Always.{InsertionAlways, always_policy, always-InsertionLaws}
use cachemere.Policy.Laws.{RemovalLaws}
use cachemere.Cache.{Cache, Template, MeanAccumulator}
use cachemere.Cache.Operations.{create, import}
use cachemere.Cache.Invariant.{Contract}
use cachemere.Cache.Insertion.{Valid, HasRoom}
use cachemere.Constraint.Memory
use cachemere.Eviction.SegmentedLru
use cachemere.Eviction.SegmentedLru.Iterator.{walk}
use mathlib.Core.List.{lookup}
use cachemere.Cache.Lifecycle.Import.{import_lem, AllHaveRoom}
use cachemere.Cache.Lifecycle.{create_lem}

-- The samples themselves stand for their rolling mean.
abbrev pub samples : MeanAccumulator (List ℕ) (List ℕ)
samples = record { make = λ window. []; add = λ l n. n ∷ l; rolling_mean = λ l. l }

abbrev pub Numbers : Type 0
Numbers =
    Template ℕ ℕ InsertionAlways (EvictionSegmentedLru ℕ (Assoc ℕ_discrete ℕ)) ConstraintMemory
      (Assoc ℕ_discrete (Item ℕ)) (List ℕ) (List ℕ)

abbrev pub NumberCache : Type 0
NumberCache =
    Cache InsertionAlways (EvictionSegmentedLru ℕ (Assoc ℕ_discrete ℕ)) ConstraintMemory
      (Assoc ℕ_discrete (Item ℕ)) (List ℕ)

abbrev pub numbers : Numbers
numbers = record {
  insertion = always_policy;
  eviction = segmented_lru_policy (assoc_map ℕ_discrete) 1;
  constraint = memory_policy;
  measure_key = λ k. 1;
  measure_value = λ v. v;
  data_map = assoc_map ℕ_discrete;
  accumulator = samples;
}

pub numbers-Contract :
    Contract ℕ_discrete numbers
      (λ s. Unit)
      (Inv (assoc_map-HashMapLaws ℕ_discrete))
      (λ item. item.total_size)
      (λ c. c.memory)
      (λ c. c.maximum_memory)
numbers-Contract = record {
  insertion = always-InsertionLaws;
  eviction = segmented_lru-EvictionLaws (assoc_map-HashMapLaws ℕ_discrete) 1;
  constraint = memory-ConstraintLaws;
  data_map = assoc_map-HashMapLaws ℕ_discrete;
}

pub numbers-RemovalLaws :
    RemovalLaws ℕ_discrete numbers.eviction (Inv (assoc_map-HashMapLaws ℕ_discrete))
numbers-RemovalLaws = segmented_lru-RemovalLaws (assoc_map-HashMapLaws ℕ_discrete) 1

abbrev pub empty_cache : NumberCache
empty_cache = create ℕ_discrete numbers 100

abbrev pub pairs : List (ℕ × ℕ)
pairs = (1, 40) ∷ (2, 50) ∷ (3, 60) ∷ []

-- The cache that a run leaves, or the one given if it fails.
abbrev pub cache_of : NumberCache → Outcome NumberCache → NumberCache
cache_of c (ok c') = c'
cache_of c (fault e) = c

-- It holds 1 and 2; there is no room for 3.
abbrev pub two_items : NumberCache
two_items = cache_of empty_cache (import ℕ_discrete numbers pairs empty_cache)

pub empty_cache-Valid : Valid numbers-Contract empty_cache
empty_cache-Valid = (create_lem numbers-Contract 100 (omega arith)).valid

-- Below the limit of 100 bytes every value of at most 100 bytes has sums far below the modulus.
pub HasRoom-small :
    (c : NumberCache) (k v : ℕ)
    → c.constraint_policy.maximum_memory ≤ 100
    → v ≤ 100
    → HasRoom numbers-Contract c k v
unfolding new_item make_item
HasRoom-small c k v limit size = record { sizes = omega arith; sums = omega arith }

pub pairs-AllHaveRoom : AllHaveRoom numbers-Contract empty_cache pairs
unfolding create construct update
pairs-AllHaveRoom = (
  HasRoom-small empty_cache 1 40 (omega arith) (omega arith),
  (
    HasRoom-small empty_cache 2 50 (omega arith) (omega arith),
    (HasRoom-small empty_cache 3 60 (omega arith) (omega arith), tt),
  ),
)

pub two_items-Valid : Valid numbers-Contract two_items
two_items-Valid =
    let (stored, rest, c', run, v, limit_same, split, stop, contents) =
      import_lem numbers-Contract pairs empty_cache empty_cache-Valid pairs-AllHaveRoom in
    subst (λ o. Valid numbers-Contract (cache_of empty_cache o)) (sym run) v

two_items-keys : victims two_items.eviction_policy ≡ 1 ∷ 2 ∷ []
unfolding import create insert_or_update new_item make_item on_insert construct update can_add
    Memory.on_insert SegmentedLru.on_insert emplace initial victims iterate lookup walk notify_all
    ℕ_discrete
two_items-keys = refl

pub two_items-limit : two_items.constraint_policy.maximum_memory ≡ 100
unfolding import create insert_or_update new_item make_item on_insert construct update can_add
    Memory.on_insert SegmentedLru.on_insert emplace initial victims iterate lookup walk notify_all
    ℕ_discrete
two_items-limit = refl

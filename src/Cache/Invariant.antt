-- ===== src/Cache/Invariant.antt =====
-- The contract between the cache and its parameters, and the invariant of the cache.
pub mod Removal
use cachemere.Common.{ℕ, ◌%◌, ◌≤◌, ◌<◌, ◌≡◌, some, is_some, total, contains}
use cachemere.Common.Maps.{HashMapLaws}
use cachemere.Item.{Item, IsExact, size_mod}
use cachemere.Policy.Laws.{IsMeasured, InsertionLaws, EvictionLaws, ConstraintLaws}
use cachemere.Cache.{Cache, Template}

-- The policies and the hash map of a template keep their laws. `Good` and `Inv` are the invariants
-- of the insertion and the eviction policy; `weight`, `used` and `limit` are what the constraint
-- policy bounds.
pub record Contract {K V I E C D A R : Type 0} (dec : Discrete K) (t : Template K V I E C D A R)
    (Good : I → Type 0) (Inv : E → Type 0) (weight : Item V → ℕ) (used limit : C → ℕ) : Type 0 where
  pub insertion : InsertionLaws t.insertion Good
  pub eviction : EvictionLaws dec t.eviction Inv t.measure_key
  pub constraint : ConstraintLaws t.constraint weight used limit
  pub data_map : HashMapLaws dec t.data_map

module _ {K V I E C D A R : Type 0} (dec : Discrete K) (t : Template K V I E C D A R)
    (Good : I → Type 0) (Inv : E → Type 0) (weight : Item V → ℕ) (used limit : C → ℕ) where
  open t use {eviction.{victims}, data_map.{find, entries}}

  -- The policies agree with the data map: the eviction policy tracks exactly the keys of the
  -- cache, and the constraint policy accounts for exactly its items.
  pub record IsCoherent (c : Cache I E C D A) : Type 0 where
    pub good : Good c.insertion_policy
    pub inv : Inv c.eviction_policy
    pub tracked : (k : K) → contains dec k (victims c.eviction_policy) ≡ is_some (find c.items k)
    pub accounted : used c.constraint_policy ≡ total (λ e. weight e.1) (entries c.items)
    pub small : used c.constraint_policy < size_mod
    pub measured :
        (k : K) (item : Item V) → find c.items k ≡ some item → IsMeasured t.measure_key k item

  -- And the constraint is satisfied.
  pub record IsValid (c : Cache I E C D A) : Type 0 where
    pub coherent : IsCoherent c
    pub within : used c.constraint_policy ≤ limit c.constraint_policy
    pub bounded : limit c.constraint_policy < size_mod

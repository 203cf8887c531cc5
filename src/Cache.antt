-- ===== src/Cache.antt =====
-- include/cachemere/cache.{h,hpp}: the class template `Cache`. This file has its state and its
-- template parameters; the children have its operations and what is proved of them.
pub mod Events
pub mod Admission
pub mod Operations
pub mod Invariant
pub mod Evictions
pub mod Insertion
pub mod Lookups
pub mod Removals
pub mod Shrinking
pub mod Lifecycle
pub mod History
pub mod Swaps
pub mod Views
pub mod Threads
pub mod Locks
pub mod References
use cachemere.Common.{ℕ}
use cachemere.Common.Maps.{HashMap}
use cachemere.Item.{Item}
use cachemere.Policy.{InsertionPolicy, EvictionPolicy, ConstraintPolicy}

-- Boost's rolling mean over a window, a library that the sources only call.
pub record MeanAccumulator (A R : Type 0) : Type 0 where
  pub make : ℕ → A
  pub add : A → ℕ → A
  pub rolling_mean : A → R

-- The parameters of the class template, and the libraries that it stands on.
pub record Template (K V I E C D A R : Type 0) : Type 0 where
  pub insertion : InsertionPolicy K V I
  pub eviction : EvictionPolicy K V E
  pub constraint : ConstraintPolicy K V C
  pub measure_key : K → ℕ
  pub measure_value : V → ℕ
  pub data_map : HashMap K (Item V) D
  pub accumulator : MeanAccumulator A R

-- The data members. The mutex is left out: each operation below is one critical section.
pub record Cache (I E C D A : Type 0) : Type 0 where
  pub statistics_window_size : ℕ
  pub insertion_policy : I
  pub eviction_policy : E
  pub constraint_policy : C
  pub items : D
  pub hit_rate_acc : A
  pub byte_hit_rate_acc : A

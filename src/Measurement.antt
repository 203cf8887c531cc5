-- ===== src/Measurement.antt =====
-- include/cachemere/measurement.hpp: the measures of an object or of a pointer to one, on a machine
-- whose pointers have eight bytes. What the object says of itself is a parameter.
use cachemere.Common.{
  ℕ, ◌+◌, ◌-◌, ◌*◌, ◌/◌, ◌%◌, ◌≤◌, ◌<◌, max, ◌≡◌, ◌⊎◌, arith, ltb, if◌then◌else◌, Option, none,
  some, Outcome, ok, fault, undefined_behaviour, ◌>>=◌,
}
use cachemere.Item.{size_mod}

abbrev pub sizeof_pointer : ℕ
sizeof_pointer = 8

round_up : ℕ → ℕ
round_up value = (value + sizeof_pointer - 1) % size_mod / sizeof_pointer * sizeof_pointer

-- The size counted for an object of the given capacity.
pub measure_capacity : ℕ → ℕ
unfolding round_up
measure_capacity capacity = if ltb capacity 1024 then max 16 (round_up capacity) else capacity

-- What a measure is called on; a null pointer is `none`.
pub data Measured (T : Type 0) : Type 0 where
  object : T → Measured T
  pointer shared_ptr unique_ptr : Option T → Measured T

module _ {T : Type 0} where
  pointee : Option T → Outcome T
  pointee none = fault undefined_behaviour
  pointee (some t) = ok t

  -- The overloads of `deref_maybe`.
  pub deref_maybe : Measured T → Outcome T
  unfolding pointee
  deref_maybe (object t) = ok t
  deref_maybe (pointer p) = pointee p
  deref_maybe (shared_ptr p) = pointee p
  deref_maybe (unique_ptr p) = pointee p

  -- `Size`
  pub measure_size : (T → ℕ) → Measured T → Outcome ℕ
  unfolding deref_maybe
  measure_size size v = do t ← deref_maybe v; ok (size t)

  -- `SizeOf`, which does not look at the object.
  pub measure_size_of : ℕ → Measured T → ℕ
  measure_size_of sizeof_T v = sizeof_T

  -- `CapacityDynamicallyAllocated`
  pub measure_capacity_of : (T → ℕ) → Measured T → Outcome ℕ
  unfolding deref_maybe measure_capacity
  measure_capacity_of capacity v = do t ← deref_maybe v; ok (measure_capacity (capacity t))

-- The measure of a dynamically allocated capacity never counts less than the capacity. Below 1024
-- it is a multiple of eight, at least 16, and otherwise at most seven bytes more than the capacity;
-- from 1024 on it is the capacity.
pub measure_capacity_bounds :
    (capacity : ℕ)
    → (capacity ≤ measure_capacity capacity)
      × (((capacity < 1024)
            × (measure_capacity capacity % sizeof_pointer ≡ 0)
            × (16 ≤ measure_capacity capacity)
            × (measure_capacity capacity ≤ max 16 (capacity + 7)))
          ⊎ ((1024 ≤ capacity) × (measure_capacity capacity ≡ capacity)))
unfolding measure_capacity
measure_capacity_bounds capacity = ground arith

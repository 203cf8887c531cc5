-- ===== src/Filter/HashMixer.antt =====
-- include/cachemere/policy/detail/hash_mixer.hpp: a sequence of positions from the hash of a key,
-- by `std::minstd_rand`, whose `result_type` has 64 bits.
use native.Mathlib.Nat.{mod-lt}
use cachemere.Common.{
  ℕ, ◌*◌, ◌%◌, ◌^◌, ◌<◌, ◌≡◌, refl, true, false, ◌==◌, if◌then◌else◌, arith, Outcome, ok, fault,
  undefined_behaviour,
}

-- The state of the generator is its last number.
pub record HashMixer : Type 0 where
  pub rng : ℕ
  pub value_range : ℕ

seed : ℕ → ℕ
seed value = if value % 2147483647 == 0 then 1 else value % 2147483647

next : ℕ → ℕ
next rng = 48271 * rng % 2147483647

module _ {K : Type 0} (hash : K → ℕ) where
  -- The constructor.
  unfoldable pub make_mixer : K → ℕ → HashMixer
  unfolding seed
  make_mixer key range = record { rng = seed (hash key % 2 ^ 64); value_range = range }

-- `mixer()`; a remainder by 0 is undefined behaviour.
pub draw : HashMixer → Outcome (ℕ × HashMixer)
unfolding next
draw m = elim (m.value_range == 0) [
  | true ↦ fault undefined_behaviour
  | false ↦ ok (next m.rng % m.value_range, record m { rng = next m.rng })
]

pub draw_lem :
    (m : HashMixer)
    → 0 < m.value_range
    → (i : ℕ) × (m' : HashMixer) × (draw m ≡ ok (i, m'))
      × (i < m.value_range)
      × (m'.value_range ≡ m.value_range)
unfolding draw
draw_lem m h = (
  next m.rng % m.value_range,
  record m { rng = next m.rng },
  ground arith,
  mod-lt (next m.rng) h,
  refl,
)

-- ===== src/Filter/Counting.antt =====
-- include/cachemere/policy/detail/counting_bloom_filter.hpp: `CountingBloomFilter`. The counters have
-- 32 bits.
pub mod Minimum
pub mod Estimate
pub mod Totals
pub mod Fresh
pub mod ByHash
pub mod Nonzero
pub mod Tallied
pub mod Decay
pub mod Counts
use cachemere.Common.{
  ℕ, zero, suc, ◌+◌, ◌-◌, ◌%◌, ◌/◌, ◌*◌, ◌^◌, ◌<◌, ◌≤◌, min, ◌≡◌, refl, sym, ◌∙◌, ap, Bool, true,
  false, List, [], ◌∷◌, ◌++◌, map, arith, Outcome, ok, ◌>>=◌, ◌>>◌, assert, ltb, ◌==◌, ◌&&◌,
  if◌then◌else◌, length, contains, ℕ_discrete, Bool-cases, inl, inr,
}
use cachemere.Double.{Double}
use cachemere.Filter.BloomMath.{optimal_filter_size, optimal_nb_of_hash_functions}
use cachemere.Filter.HashMixer.{HashMixer, make_mixer, draw, draw_lem}

pub record CountingBloomFilter : Type 0 where
  pub cardinality : ℕ
  pub filter : List ℕ
  pub nb_hashes : ℕ
  pub nb_nonzero : ℕ

-- As many counters, all 0.
pub zeros : ℕ → List ℕ
zeros zero = []
zeros (suc n) = 0 ∷ zeros n

-- The constructor.
pub make_counters : {W : Type 0} → Double W → ℕ → Outcome CountingBloomFilter
unfolding zeros
make_counters d cardinality = do
  filter_size ← optimal_filter_size d cardinality
  let filter = zeros filter_size
  nb_hashes ← optimal_nb_of_hash_functions d cardinality (length filter)
  ok (record { cardinality = cardinality; filter = filter; nb_hashes = nb_hashes; nb_nonzero = 0 })

-- `std::numeric_limits<uint32_t>::max()`
abbrev pub max_count : ℕ
max_count = 2 ^ 32 - 1

-- `m_filter[idx]`, read where the index has been asserted to be in range.
pub get : List ℕ → ℕ → ℕ
get [] idx = 0
get (x ∷ xs) zero = x
get (x ∷ xs) (suc idx) = get xs idx

-- `++m_filter[idx]`
pub increment : List ℕ → ℕ → List ℕ
increment [] idx = []
increment (x ∷ xs) zero = (x + 1) % 2 ^ 32 ∷ xs
increment (x ∷ xs) (suc idx) = x ∷ increment xs idx

-- The first loop of `add`, with `indices` and `minimum_val`.
pub gather : ℕ → HashMixer → List ℕ → List ℕ → ℕ → Outcome (List ℕ × ℕ)
gather zero mixer filter indices minimum_val = ok (indices, minimum_val)
gather (suc n) mixer filter indices minimum_val = do
  (idx, mixer') ← draw mixer
  assert (ltb idx (length filter))
  gather n mixer' filter (indices ++ idx ∷ []) (min (get filter idx) minimum_val)

-- The second loop of `add`: the counters and `m_nb_nonzero`.
pub bump : List ℕ → ℕ → ℕ → List ℕ → ℕ → List ℕ × ℕ
bump [] minimum_val is_zero_increment filter nb_nonzero = (filter, nb_nonzero)
bump (idx ∷ indices) minimum_val is_zero_increment filter nb_nonzero =
    elim (get filter idx == minimum_val) [
      | true ↦
          bump indices minimum_val is_zero_increment (increment filter idx)
            ((nb_nonzero + is_zero_increment) % 2 ^ 32)
      | false ↦ bump indices minimum_val is_zero_increment filter nb_nonzero
    ]

-- The loop of `estimate`.
pub estimate_loop : ℕ → HashMixer → List ℕ → ℕ → Outcome ℕ
estimate_loop zero mixer filter minimum_val = ok minimum_val
estimate_loop (suc n) mixer filter minimum_val = do
  (idx, mixer') ← draw mixer
  assert (ltb idx (length filter))
  estimate_loop n mixer' filter (min (get filter idx) minimum_val)

module _ {K : Type 0} (hash : K → ℕ) where
  pub add : CountingBloomFilter → K → Outcome CountingBloomFilter
  unfolding gather bump
  add b item = do
    (indices, minimum_val) ←
        gather b.nb_hashes (make_mixer hash item (length b.filter)) b.filter [] max_count
    let (filter, nb_nonzero) =
        bump indices minimum_val (if minimum_val == 0 then 1 else 0) b.filter b.nb_nonzero
    ok (record b { filter = filter; nb_nonzero = nb_nonzero })

  pub estimate : CountingBloomFilter → K → Outcome ℕ
  unfolding estimate_loop
  estimate b item = do
    assert (ltb 0 b.nb_hashes)
    estimate_loop b.nb_hashes (make_mixer hash item (length b.filter)) b.filter max_count

pub clear : CountingBloomFilter → CountingBloomFilter
clear b = record b { filter = map (λ counter. 0) b.filter; nb_nonzero = 0 }

-- The loop of `decay`.
pub decay_loop : List ℕ → ℕ → List ℕ × ℕ
decay_loop [] nb_nonzero = ([], nb_nonzero)
decay_loop (counter ∷ counters) nb_nonzero =
    let (rest, n) =
      decay_loop counters
        (if counter == 1 then (nb_nonzero + 2 ^ 32 - 1) % 2 ^ 32 else nb_nonzero) in
    (counter / 2 ∷ rest, n)

pub decay : CountingBloomFilter → CountingBloomFilter
unfolding decay_loop
decay b =
    let (filter, nb_nonzero) = decay_loop b.filter b.nb_nonzero in
    record b { filter = filter; nb_nonzero = nb_nonzero }

-- `sizeof(uint32_t)` is 4.
pub memory_used : CountingBloomFilter → ℕ
memory_used b = (length b.filter * 4 + 4 + 4 + 4) % 2 ^ 64

pub saturation : {W : Type 0} → Double W → CountingBloomFilter → Outcome W
saturation d b = do
  assert (ltb 0 (length b.filter))
  ok (d.div (d.of_u64 b.nb_nonzero) (d.of_u64 (length b.filter)))

-- ===== src/Filter/BloomMath.antt =====
-- include/cachemere/policy/detail/bloom_filter_math.hpp: how large a filter is for a cardinality.
use cachemere.Common.{
  ℕ, ◌<◌, ◌≡◌, refl, ◌⊎◌, inl, inr, false, Outcome, ok, fault, assertion_failed, ◌>>◌, assert,
  Bool-cases,
}
use cachemere.Double.{Double, IsTruncated}

module _ {W : Type 0} (d : Double W) where
  abbrev pub ideal_set_size : ℕ → W
  ideal_set_size cardinality =
      let log_2 = d.log (d.of_u64 2) in
      let multiplier = d.div (d.log d.hundredth) (d.pow log_2 (d.of_u64 2)) in
      d.mul (d.neg (d.of_u64 cardinality)) multiplier

  pub optimal_filter_size : ℕ → Outcome ℕ
  optimal_filter_size cardinality = do
    assert (d.less (d.of_u64 1) (ideal_set_size cardinality))
    ok (d.to_u64 (ideal_set_size cardinality))

  abbrev pub ideal_nb_hashes : ℕ → ℕ → W
  ideal_nb_hashes cardinality filter_size =
      d.mul (d.div (d.of_u64 filter_size) (d.of_u64 cardinality)) (d.log (d.of_u64 2))

  pub optimal_nb_of_hash_functions : ℕ → ℕ → Outcome ℕ
  optimal_nb_of_hash_functions cardinality filter_size = do
    assert (d.at_most (d.of_u64 1) (ideal_nb_hashes cardinality filter_size))
    ok (d.to_u32 (ideal_nb_hashes cardinality filter_size))

module _ {W : Type 0} {d : Double W} {Fits : ℕ → W → Type 0} (truncated : IsTruncated d Fits) where
  -- The cardinality asks for at most one bit, or for less than one hash.
  abbrev pub IsTooSmall : ℕ → Type 0
  IsTooSmall cardinality =
      (d.less (d.of_u64 1) (ideal_set_size d cardinality) ≡ false)
      ⊎ (d.at_most (d.of_u64 1)
            (ideal_nb_hashes d cardinality (d.to_u64 (ideal_set_size d cardinality)))
          ≡ false)

  -- The results of both functions fit their types.
  pub record IsCastable (cardinality : ℕ) : Type 0 where
    pub sizes : Fits 64 (ideal_set_size d cardinality)
    pub hashes : Fits 32 (ideal_nb_hashes d cardinality (d.to_u64 (ideal_set_size d cardinality)))

  -- What the two functions answer.
  pub optimal_lem :
      (cardinality : ℕ)
      → IsCastable cardinality
      → let n = d.to_u64 (ideal_set_size d cardinality) in
        (IsTooSmall cardinality
          × ((optimal_filter_size d cardinality ≡ fault assertion_failed)
              ⊎ ((optimal_filter_size d cardinality ≡ ok n)
                  × (optimal_nb_of_hash_functions d cardinality n ≡ fault assertion_failed))))
        ⊎ ((nb : ℕ) × (optimal_filter_size d cardinality ≡ ok n)
            × (optimal_nb_of_hash_functions d cardinality n ≡ ok nb)
            × (0 < n)
            × (0 < nb))
  unfolding optimal_filter_size optimal_nb_of_hash_functions
  optimal_lem cardinality castable =
      let n = d.to_u64 (ideal_set_size d cardinality) in
      elim (Bool-cases (d.less (d.of_u64 1) (ideal_set_size d cardinality))) [
        | inr small ↦ inl (inl small, inl (rw (small, optimal_filter_size) refl))
        | inl large ↦
            let sized : optimal_filter_size d cardinality ≡ ok n =
              rw (large, optimal_filter_size) refl in
            elim (Bool-cases (d.at_most (d.of_u64 1) (ideal_nb_hashes d cardinality n))) [
              | inr few ↦ inl (inr few, inr (sized, rw (few, optimal_nb_of_hash_functions) refl))
              | inl enough ↦ inr (
                d.to_u32 (ideal_nb_hashes d cardinality n),
                sized,
                rw (enough, optimal_nb_of_hash_functions) refl,
                truncated.to_u64_positive _ castable.sizes large,
                truncated.to_u32_positive _ castable.hashes enough,
              )
            ]
      ]

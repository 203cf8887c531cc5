-- ===== src/Filter/Bloom/Fresh.antt =====
-- A new Bloom filter: the assertions of bloom_filter_math.hpp, and what it contains.
use cachemere.Common.{ℕ, ◌<◌, ◌≡◌, refl, ◌⊎◌, inl, inr, false, ok, fault, assertion_failed}
use cachemere.Double.{Double, IsTruncated}
use cachemere.Filter.BloomMath.{IsTooSmall, IsCastable, ideal_set_size, optimal_lem}
use cachemere.Filter.BitSet.{BitSet, BitSetLaws}
use cachemere.Filter.Bloom.{BloomFilter, make_filter, maybe_contains}
use cachemere.Filter.Bloom.Membership.{vacant-maybe_contains}

module _ {B W K : Type 0} {bitset : BitSet B} (laws : BitSetLaws bitset) {d : Double W}
    {Fits : ℕ → W → Type 0} (truncated : IsTruncated d Fits) (hash : K → ℕ) where
  open bitset use {make, size}

  pub make_filter_lem :
      (cardinality : ℕ)
      → IsCastable truncated cardinality
      → ((make_filter bitset d cardinality ≡ fault assertion_failed)
          × IsTooSmall truncated cardinality)
        ⊎ ((b : BloomFilter B) × (make_filter bitset d cardinality ≡ ok b)
            × (0 < size b.filter)
            × (0 < b.nb_hashes)
            × ((k : K) → maybe_contains bitset hash b k ≡ ok false))
  unfolding make_filter
  make_filter_lem cardinality castable =
      let n = d.to_u64 (ideal_set_size d cardinality) in
      elim (optimal_lem truncated cardinality castable) [
        | inl (small, inl refused) ↦ inl (rw (refused, make_filter) refl, small)
        | inl (small, inr (sized, refused)) ↦
            inl (rw (sized, laws.size-make n, refused, make_filter) refl, small)
        | inr (nb, sized, hashed, bits, hashes) ↦
            let b : BloomFilter B = record {
              cardinality = cardinality;
              filter = make n;
              nb_hashes = nb;
            } in
            let positive : 0 < size b.filter = rw (laws.size-make n) bits in
            inr (
              b,
              rw (sized, laws.size-make n, hashed, make_filter) refl,
              positive,
              hashes,
              λ k. vacant-maybe_contains laws hash b k positive hashes (laws.test-make n),
            )
      ]

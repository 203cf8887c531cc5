-- ===== src/Filter/Counting/Fresh.antt =====
-- A new counting filter: the assertions of bloom_filter_math.hpp, and its estimates.
use cachemere.Common.{
  ℕ, zero, suc, ◌≡◌, refl, sym, ◌∙◌, ap, ◌⊎◌, inl, inr, arith, ok, fault, assertion_failed, length,
  ok_inj, subst,
}
use cachemere.Double.{Double, IsTruncated}
use cachemere.Filter.BloomMath.{IsTooSmall, IsCastable, ideal_set_size, optimal_lem}
use cachemere.Filter.Counting.{CountingBloomFilter, zeros, get, make_counters, estimate, max_count}
use cachemere.Filter.Counting.Minimum.{minimum-le_get}
use cachemere.Filter.Counting.Estimate.{Positions-of}
use cachemere.Filter.Counting.Totals.{IsUsable}

length-zeros : (n : ℕ) → length (zeros n) ≡ n
unfolding zeros
length-zeros zero = refl
length-zeros (suc n) = ap suc (length-zeros n)

get-zeros : (n i : ℕ) → get (zeros n) i ≡ 0
unfolding zeros get
get-zeros zero i = refl
get-zeros (suc n) zero = refl
get-zeros (suc n) (suc i) = get-zeros n i

module _ {W : Type 0} {d : Double W} {Fits : ℕ → W → Type 0} (truncated : IsTruncated d Fits) where
  module _ {K : Type 0} (hash : K → ℕ) where
    zeros-estimate :
        (b : CountingBloomFilter) (k : K) (n : ℕ)
        → b.filter ≡ zeros n
        → IsUsable b
        → estimate hash b k ≡ ok 0
    zeros-estimate b k n e u =
        let (is, p) = Positions-of hash b k u.counters u.hashes in
        let (i, there) = p.first in
        let low = minimum-le_get b.filter is max_count i there in
        let none_there : get b.filter i ≡ 0 = ap (λ f. get f i) e ∙ get-zeros n i in
        p.estimated b.filter b.nb_nonzero refl ∙ ap ok (omega (arith, low, none_there))

    pub make_counters_lem :
        (cardinality : ℕ)
        → IsCastable truncated cardinality
        → ((make_counters d cardinality ≡ fault assertion_failed)
            × IsTooSmall truncated cardinality)
          ⊎ ((b : CountingBloomFilter) × (make_counters d cardinality ≡ ok b)
              × IsUsable b
              × (b.nb_nonzero ≡ 0)
              × ((k : K) → estimate hash b k ≡ ok 0))
    unfolding make_counters
    make_counters_lem cardinality castable =
        let n = d.to_u64 (ideal_set_size d cardinality) in
        elim (optimal_lem truncated cardinality castable) [
          | inl (small, inl refused) ↦ inl (rw (refused, make_counters) refl, small)
          | inl (small, inr (sized, refused)) ↦
              inl (rw (sized, length-zeros n, refused, make_counters) refl, small)
          | inr (nb, sized, hashed, bits, hashes) ↦
              let b : CountingBloomFilter = record {
                cardinality = cardinality;
                filter = zeros n;
                nb_hashes = nb;
                nb_nonzero = 0;
              } in
              let usable : IsUsable b = record {
                counters = rw (length-zeros n) bits;
                hashes = hashes;
              } in
              inr (
                b,
                rw (sized, length-zeros n, hashed, make_counters) refl,
                usable,
                refl,
                λ k. zeros-estimate b k n refl usable,
              )
        ]

  pub make_counters-IsUsable :
      (cardinality : ℕ) (sketch : CountingBloomFilter)
      → IsCastable truncated cardinality
      → make_counters d cardinality ≡ ok sketch
      → IsUsable sketch
  make_counters-IsUsable cardinality sketch castable made =
      elim (make_counters_lem {K = ℕ} (λ k. k) cardinality castable) [
        | inl (refused, small) ↦ absurd (ground (arith, refused, made))
        | inr (b, made', usable, nonzero, zero_estimate) ↦
            subst IsUsable (ok_inj b sketch (sym made' ∙ made)) usable
      ]

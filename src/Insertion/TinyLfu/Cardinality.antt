-- ===== src/Insertion/TinyLfu/Cardinality.antt =====
-- `set_cardinality` of TinyLFU: when it fails, and what the policy answers after it.
use cachemere.Common.{
  ℕ, ◌≡◌, refl, sym, ◌∙◌, subst, ok_inj, ◌⊎◌, inl, inr, false, arith, ok, fault, assertion_failed,
}
use cachemere.Double.{Double, IsTruncated}
use cachemere.Filter.BloomMath.{IsTooSmall, IsCastable}
use cachemere.Filter.BitSet.{BitSet, BitSetLaws}
use cachemere.Filter.Bloom.Fresh.{make_filter_lem}
use cachemere.Filter.Counting.Fresh.{make_counters_lem}
use cachemere.Insertion.TinyLfu.{
  InsertionTinyLfu, set_cardinality, construct, default_cache_cardinality, should_add,
  estimate_count_for_key,
}
use cachemere.Insertion.TinyLfu.Laws.{IsSized}

module _ {B W K : Type 0} {bitset : BitSet B} (laws : BitSetLaws bitset) {d : Double W}
    {Fits : ℕ → W → Type 0} (truncated : IsTruncated d Fits) (hash : K → ℕ) where
  -- The policy has seen no key.
  pub record IsNew (s : InsertionTinyLfu B) : Type 0 where
    pub sized : IsSized laws s
    pub unwanted : (k : K) → should_add bitset hash s k ≡ ok false
    pub unseen : (k : K) → estimate_count_for_key bitset hash s k ≡ ok 0

  -- `set_cardinality` of TinyLFU, where the computed size and number of hashes fit their types,
  -- fails an assertion only if the cardinality asks for at most one bit or for less than one hash;
  -- otherwise both filters have a positive size, no key is wanted, and the estimate of every key is
  -- 0.
  pub set_cardinality_lem :
      (cardinality : ℕ)
      → IsCastable truncated cardinality
      → ((set_cardinality bitset d cardinality ≡ fault assertion_failed)
          × IsTooSmall truncated cardinality)
        ⊎ ((s : InsertionTinyLfu B) × (set_cardinality bitset d cardinality ≡ ok s) × IsNew s)
  unfolding set_cardinality should_add estimate_count_for_key
  set_cardinality_lem cardinality castable =
      elim (make_filter_lem laws truncated hash cardinality castable) [
        | inl (refused, small) ↦ inl (rw (refused, set_cardinality) refl, small)
        | inr (g, made, bits, hashes, vacant) ↦
            elim (make_counters_lem truncated hash cardinality castable) [
              | inl (refused, small) ↦ inl (rw (made, refused, set_cardinality) refl, small)
              | inr (c, counted, usable, nonzero, zero_estimate) ↦ inr (
                record { gatekeeper = g; frequency_sketch = c },
                rw (made, counted, set_cardinality) refl,
                record {
                  sized = record { gate = bits; sketch = usable };
                  unwanted = vacant;
                  unseen = λ k. rw (zero_estimate k, vacant k) refl;
                },
              )
            ]
      ]

  pub construct-IsSized :
      (filters : InsertionTinyLfu B)
      → IsCastable truncated default_cache_cardinality
      → construct bitset d ≡ ok filters
      → IsSized laws filters
  construct-IsSized filters castable made =
      elim (set_cardinality_lem default_cache_cardinality castable) [
        | inl (refused, small) ↦ absurd (ground (arith, refused, made))
        | inr (s, made', new) ↦ subst (IsSized laws) (ok_inj s filters (sym made' ∙ made)) new.sized
      ]

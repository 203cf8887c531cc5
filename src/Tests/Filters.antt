-- ===== src/Tests/Filters.antt =====
-- The theorems on the filters at a filter of eight bits.
use cachemere.Filter.Counting
use cachemere.Filter.Counting.{CountingBloomFilter, max_count}
use cachemere.Filter.Counting.Estimate.{counting_add-estimate}
use cachemere.Insertion.TinyLfu.{InsertionTinyLfu, touch_item, should_add}
use cachemere.Insertion.TinyLfu.Laws.{IsSized, touch_item_lem}
use cachemere.Filter.BloomMath.{IsTooSmall}
use cachemere.Filter.Counting.Totals.{IsUsable, estimate_total}
use cachemere.Filter.Counting.Nonzero.{AllFit, nonzeros}
use cachemere.Filter.Counting.Tallied.{IsTallied, reach-saturation, next, start, decays}
use cachemere.Filter.Counting.Decay.{decay-estimate}
use cachemere.Filter.Counting.Counts.{
  IsBelow, AllAtMost-IsBelow, estimate-IsBelow, add_all, occurrences, add_all_lem,
}
use cachemere.Insertion.TinyLfu.{set_cardinality}
use cachemere.Insertion.TinyLfu.Touch.{Touched, touch_item-estimate}
use cachemere.Insertion.TinyLfu.Cardinality.{IsNew, set_cardinality_lem}
use cachemere.Tests.Doubles.{thousandths, thousandths-IsTruncated}
use cachemere.Common.{
  List, refl, fault, assertion_failed, ◌/◌, length, ℕ_discrete, ◌+◌, ◌≤◌, [], ◌∷◌, ℕ, ◌≡◌, ◌⊎◌,
  true, false, arith, ok,
}
use cachemere.Filter.BitSet.{Bits, function_bits, function_bits-BitSetLaws}
use cachemere.Filter.Bloom.{BloomFilter, add, maybe_contains}
use cachemere.Filter.Bloom.Membership.{bloom_add-maybe_contains}

-- Eight bits and three hashes.
abbrev eight_bits : BloomFilter Bits
eight_bits = record { cardinality = 2; filter = function_bits.make 8; nb_hashes = 3 }

abbrev pub identity_hash : ℕ → ℕ
identity_hash k = k

bloom_add-maybe_contains_example :
    (b' : BloomFilter Bits) × (add function_bits identity_hash eight_bits 5 ≡ ok b')
    × (maybe_contains function_bits identity_hash b' 5 ≡ ok true)
    × ((j : ℕ)
        → (maybe_contains function_bits identity_hash eight_bits j ≡ ok false)
          ⊎ (maybe_contains function_bits identity_hash b' j ≡ ok true))
bloom_add-maybe_contains_example =
    bloom_add-maybe_contains function_bits-BitSetLaws identity_hash eight_bits 5 (omega arith)

abbrev pub eight_counters : CountingBloomFilter
eight_counters = record {
  cardinality = 2;
  filter = 0 ∷ 1 ∷ 0 ∷ 2 ∷ 0 ∷ 0 ∷ 3 ∷ 0 ∷ [];
  nb_hashes = 3;
  nb_nonzero = 3;
}

counting_add-estimate_example :
    (e : ℕ) × (Counting.estimate identity_hash eight_counters 5 ≡ ok e)
    × ((e ≡ max_count)
        ⊎ ((b' : CountingBloomFilter) × (Counting.add identity_hash eight_counters 5 ≡ ok b')
            × (Counting.estimate identity_hash b' 5 ≡ ok (e + 1))
            × ((j : ℕ)
                → (d : ℕ) × (d' : ℕ) × (Counting.estimate identity_hash eight_counters j ≡ ok d)
                  × (Counting.estimate identity_hash b' j ≡ ok d')
                  × (d ≤ d'))))
counting_add-estimate_example =
    counting_add-estimate identity_hash eight_counters 5 (omega arith) (omega arith)

abbrev tiny_lfu : InsertionTinyLfu Bits
tiny_lfu = record { gatekeeper = eight_bits; frequency_sketch = eight_counters }

tiny_lfu-IsSized : IsSized function_bits-BitSetLaws tiny_lfu
tiny_lfu-IsSized = record {
  gate = omega arith;
  sketch = record { counters = omega arith; hashes = omega arith };
}

touch_item_lem_example :
    (s' : InsertionTinyLfu Bits) × (touch_item function_bits identity_hash tiny_lfu 5 ≡ ok s')
    × IsSized function_bits-BitSetLaws s'
    × ((should_add function_bits identity_hash tiny_lfu 5 ≡ ok true)
        ⊎ (should_add function_bits identity_hash s' 5 ≡ ok true))
touch_item_lem_example =
    touch_item_lem function_bits-BitSetLaws identity_hash tiny_lfu 5 tiny_lfu-IsSized

eight_counters-IsUsable : IsUsable eight_counters
eight_counters-IsUsable = record { counters = omega arith; hashes = omega arith }

eight_counters-AllFit : AllFit eight_counters.filter
unfolding AllFit
eight_counters-AllFit = (
  omega arith,
  (
    omega arith,
    (omega arith, (omega arith, (omega arith, (omega arith, (omega arith, (omega arith, tt)))))),
  ),
)

decay-estimate_example :
    (e : ℕ) × (Counting.estimate identity_hash eight_counters 5 ≡ ok e)
    × (Counting.estimate identity_hash (Counting.decay eight_counters) 5 ≡ ok (e / 2))
decay-estimate_example =
    decay-estimate identity_hash eight_counters 5 eight_counters-IsUsable eight_counters-AllFit

eight_counters-IsTallied : IsTallied eight_counters
unfolding nonzeros
eight_counters-IsTallied = record {
  usable = eight_counters-IsUsable;
  short = omega arith;
  fits = eight_counters-AllFit;
  tally = refl;
}

reach-saturation_example :
    ((Counting.decay eight_counters).nb_nonzero ≡ nonzeros (Counting.decay eight_counters).filter)
    × (Counting.saturation thousandths (Counting.decay eight_counters)
        ≡ ok (
            thousandths.div
              (thousandths.of_u64 (nonzeros (Counting.decay eight_counters).filter))
              (thousandths.of_u64 (length (Counting.decay eight_counters).filter))))
reach-saturation_example =
    reach-saturation identity_hash thousandths eight_counters eight_counters-IsTallied
      (next start (decays refl))

eight_counters-IsBelow : IsBelow eight_counters 3
eight_counters-IsBelow = AllAtMost-IsBelow eight_counters 3 (
  omega arith,
  (
    omega arith,
    (omega arith, (omega arith, (omega arith, (omega arith, (omega arith, (omega arith, tt)))))),
  ),
)

abbrev three_keys : List ℕ
three_keys = 5 ∷ 6 ∷ 5 ∷ []

add_all_lem_example :
    (b' : CountingBloomFilter) × (add_all identity_hash three_keys eight_counters ≡ ok b')
    × ((j : ℕ)
        → (d : ℕ) × (d' : ℕ) × (Counting.estimate identity_hash eight_counters j ≡ ok d)
          × (Counting.estimate identity_hash b' j ≡ ok d')
          × (d + occurrences identity_hash ℕ_discrete j three_keys ≤ d')
          × (d' ≤ 3 + length three_keys))
add_all_lem_example =
    add_all_lem identity_hash ℕ_discrete three_keys eight_counters 3 eight_counters-IsUsable
      eight_counters-IsBelow (omega arith)

set_cardinality_lem_example :
    ((set_cardinality function_bits thousandths 2000 ≡ fault assertion_failed)
      × IsTooSmall thousandths-IsTruncated 2000)
    ⊎ ((s : InsertionTinyLfu Bits) × (set_cardinality function_bits thousandths 2000 ≡ ok s)
        × IsNew function_bits-BitSetLaws thousandths-IsTruncated identity_hash s)
set_cardinality_lem_example =
    set_cardinality_lem function_bits-BitSetLaws thousandths-IsTruncated identity_hash 2000
      (record { sizes = omega arith; hashes = omega arith })

-- The estimate of key 5.
five_estimate : (e : ℕ) × (Counting.estimate identity_hash eight_counters 5 ≡ ok e)
five_estimate = estimate_total identity_hash eight_counters 5 eight_counters-IsUsable

five_estimate-small : five_estimate.0 ≤ 3
five_estimate-small =
    estimate-IsBelow identity_hash eight_counters 5 3 five_estimate.0 eight_counters-IsUsable
      eight_counters-IsBelow five_estimate.1

touch_item-estimate_example :
    (s' : InsertionTinyLfu Bits) × (touch_item function_bits identity_hash tiny_lfu 5 ≡ ok s')
    × Touched function_bits-BitSetLaws identity_hash tiny_lfu 5 five_estimate.0 s'
touch_item-estimate_example =
    touch_item-estimate function_bits-BitSetLaws identity_hash tiny_lfu 5 five_estimate.0
      tiny_lfu-IsSized (omega arith) eight_counters-AllFit five_estimate.1
      (omega (arith, five_estimate-small))

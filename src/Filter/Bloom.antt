-- ===== src/Filter/Bloom.antt =====
-- include/cachemere/policy/detail/bloom_filter.hpp: `BloomFilter`.
pub mod Membership
pub mod Fresh
pub mod ByHash
use cachemere.Common.{
  ℕ, zero, suc, ◌+◌, ◌*◌, ◌%◌, ◌^◌, ◌<◌, ◌≡◌, refl, sym, ◌∙◌, ◌⊎◌, inl, inr, Bool, true, false,
  arith, Outcome, ok, ◌>>=◌, ◌>>◌, assert, ltb, Bool-cases, ap, if◌then◌else◌,
}
use cachemere.Filter.HashMixer.{HashMixer, make_mixer, draw}
use cachemere.Double.{Double}
use cachemere.Filter.BloomMath.{optimal_filter_size, optimal_nb_of_hash_functions}
use cachemere.Filter.BitSet.{BitSet}

pub record BloomFilter (B : Type 0) : Type 0 where
  pub cardinality : ℕ
  pub filter : B
  pub nb_hashes : ℕ

module _ {B : Type 0} (bitset : BitSet B) where
  open bitset use {make, size, set, test, reset, count, num_blocks}

  -- The constructor.
  pub make_filter : {W : Type 0} → Double W → ℕ → Outcome (BloomFilter B)
  make_filter d cardinality = do
    filter_size ← optimal_filter_size d cardinality
    let filter = make filter_size
    nb_hashes ← optimal_nb_of_hash_functions d cardinality (size filter)
    ok (record { cardinality = cardinality; filter = filter; nb_hashes = nb_hashes })

  -- `sizeof(BitsetBlock)` is 1 and `sizeof(uint32_t)` is 4.
  pub memory_used : BloomFilter B → ℕ
  memory_used b = (num_blocks b.filter * 1 + 4) % 2 ^ 64

  pub saturation : {W : Type 0} → Double W → BloomFilter B → Outcome W
  saturation d b = do
    assert (ltb 0 (size b.filter))
    ok (d.div (d.of_u64 (count b.filter)) (d.of_u64 (size b.filter)))

  -- The loop of `add`, over the hashes that are left.
  pub add_loop : ℕ → HashMixer → B → Outcome B
  add_loop zero mixer filter = ok filter
  add_loop (suc n) mixer filter = do
    (filter_idx, mixer') ← draw mixer
    assert (ltb filter_idx (size filter))
    add_loop n mixer' (set filter filter_idx)

  pub clear : BloomFilter B → BloomFilter B
  clear b = record b { filter = reset b.filter }

  -- The loop of `maybe_contains`.
  pub contains_loop : ℕ → HashMixer → B → Outcome Bool
  contains_loop zero mixer filter = ok true
  contains_loop (suc n) mixer filter = do
    (filter_idx, mixer') ← draw mixer
    assert (ltb filter_idx (size filter))
    elim (test filter filter_idx) [ false ↦ ok false | true ↦ contains_loop n mixer' filter ]

  module _ {K : Type 0} (hash : K → ℕ) where
    pub add : BloomFilter B → K → Outcome (BloomFilter B)
    unfolding add_loop
    add b item = do
      filter ← add_loop b.nb_hashes (make_mixer hash item (size b.filter)) b.filter
      ok (record b { filter = filter })

    pub maybe_contains : BloomFilter B → K → Outcome Bool
    unfolding contains_loop
    maybe_contains b item =
        contains_loop b.nb_hashes (make_mixer hash item (size b.filter)) b.filter

-- ===== src/Filter/Bloom/ByHash.antt =====
-- A Bloom filter knows an item by its hash only, whatever the type of the item.
use cachemere.Common.{ℕ, ◌≡◌, refl}
use cachemere.Filter.HashMixer.{make_mixer}
use cachemere.Filter.BitSet.{BitSet}
use cachemere.Filter.Bloom.{BloomFilter, add, maybe_contains}

module _ {B K : Type 0} (bitset : BitSet B) (hash : K → ℕ) (b : BloomFilter B) (item : K) where
  pub add_by_hash : add bitset hash b item ≡ add bitset (λ (n : ℕ). n) b (hash item)
  unfolding add make_mixer
  add_by_hash = refl

  pub contains_by_hash :
      maybe_contains bitset hash b item ≡ maybe_contains bitset (λ (n : ℕ). n) b (hash item)
  unfolding maybe_contains make_mixer
  contains_by_hash = refl

-- ===== src/Filter/Counting/ByHash.antt =====
-- A counting filter knows an item by its hash only, whatever the type of the item.
use cachemere.Common.{ℕ, ◌≡◌, refl}
use cachemere.Filter.HashMixer.{make_mixer}
use cachemere.Filter.Counting.{CountingBloomFilter, add, estimate}

module _ {K : Type 0} (hash : K → ℕ) (b : CountingBloomFilter) (item : K) where
  pub count_by_hash : add hash b item ≡ add (λ (n : ℕ). n) b (hash item)
  unfolding add make_mixer
  count_by_hash = refl

  pub estimate_by_hash : estimate hash b item ≡ estimate (λ (n : ℕ). n) b (hash item)
  unfolding estimate make_mixer
  estimate_by_hash = refl

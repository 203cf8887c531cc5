-- ===== src/Filter.antt =====
-- include/cachemere/policy/detail: the probabilistic filters of the insertion policies.
pub mod HashMixer
pub mod BitSet
pub mod BloomMath
pub mod Bloom
pub mod Counting

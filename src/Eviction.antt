-- ===== src/Eviction.antt =====
-- The eviction policies: in which order the keys of the cache are given up.
pub mod Lru
pub mod SegmentedLru
pub mod Gdsf

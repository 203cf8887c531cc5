-- ===== src/Insertion.antt =====
-- include/cachemere/policy/insertion_*.{h,hpp}: the insertion policies that are modelled.
pub mod Always
pub mod TinyLfu

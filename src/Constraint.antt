-- ===== src/Constraint.antt =====
-- The constraint policies: how much the cache may hold.
pub mod Memory
pub mod Count

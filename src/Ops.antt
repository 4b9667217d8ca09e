-- ===== src/Ops.antt =====
-- ops/: process-local limits.
pub mod Limits

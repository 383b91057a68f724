-- ===== src/Unsubscribeme.antt =====
-- services/unsubscribeme: the idempotent HTTP service over its `subscription` table.
pub mod Db
pub mod Api

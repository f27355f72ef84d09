-- ===== src/Identity.antt =====
-- Identities: indy_node/persistence/idr_cache.py and the handlers of NYM transactions.

mod Tests
pub mod Cache
pub mod Diddoc
pub mod Nym
pub mod Writes

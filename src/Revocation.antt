-- ===== src/Revocation.antt =====
-- Revocation registries: indy_node/server/revocation_strategy.py and revoc_reg_entry_handler.py.
mod Tests
pub mod Sets
pub mod Strategy
pub mod Handler
pub mod Reads

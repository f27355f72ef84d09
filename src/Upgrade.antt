-- ===== src/Upgrade.antt =====
-- Upgrades of a node: indy_node/server/upgrader.py, node_maintainer.py, action_log.py and
-- upgrade_log.py.
mod Tests
pub mod Log
pub mod Schedule
pub mod State
pub mod Handler
pub mod Ledger
pub mod Upgrader

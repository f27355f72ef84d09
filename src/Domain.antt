-- ===== src/Domain.antt =====
-- The writes of the domain ledger other than nyms and revocation entries: attributes, schemas,
-- claim definitions and definitions of revocation registries, under
-- indy_node/server/request_handlers/domain_req_handlers, and the paths of
-- indy_common/state/domain.py.
pub mod Paths
pub mod Definitions
pub mod Attribute
pub mod RichSchema
mod Tests

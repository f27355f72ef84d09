-- ===== src/Auth.antt =====
-- indy_common/authorize: who may send which write request.
mod Tests
pub mod Role
pub mod Action
pub mod Constraint
pub mod Request
pub mod Verdict
pub mod Authorizer
pub mod Strategy
pub mod Validator
pub mod Changes
pub mod Txn
pub mod Rules

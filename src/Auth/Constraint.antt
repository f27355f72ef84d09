-- ===== src/Auth/Constraint.antt =====
-- indy_common/authorize/auth_constraints.py: the constraints of an auth rule.
mod Tests
pub mod Created
pub mod Dict
use indy_node.Base.{ℕ, String, Option, none, some, Bool, false, ◌&&◌, not, if◌then◌else◌, opt_eq}
use indy_node.Base.Json.{Json}
use indy_node.Auth.Role.{accepted_roles, member}

-- The attributes of an `AuthConstraint`.
pub record AuthConstraint : Type 0 where
  pub role : Option String
  pub sig_count : ℕ
  pub need_to_be_owner : Bool
  pub off_ledger_signature : Option Bool
  pub metadata : Json

mutual
  pub data Constraint : Type 0 where
    forbidden : Constraint
    role_constraint : AuthConstraint → Constraint
    and_constraint : Constraints → Constraint
    or_constraint : Constraints → Constraint

  pub data Constraints : Type 0 where
    nil : Constraints
    cons : Constraint → Constraints → Constraints

-- `off_ledger_signature` is tested for its truth: `None` counts as False.
abbrev pub off_ledger : AuthConstraint → Bool
off_ledger c = elim c.off_ledger_signature [ none ↦ false | some b ↦ b ]

-- `_role_validation` passes; otherwise the constructor raises a ValueError.
unfoldable pub role_validation : AuthConstraint → Bool
role_validation c =
    if member c.role accepted_roles
    then not (off_ledger c && not (opt_eq c.role (some "*")))
    else false

unfoldable mutual
  pub set_metadata : Json → Constraint → Constraint
  set_metadata m forbidden = forbidden
  set_metadata m (role_constraint c) = role_constraint (record c { metadata = m })
  set_metadata m (and_constraint cs) = and_constraint (set_metadata_all m cs)
  set_metadata m (or_constraint cs) = or_constraint (set_metadata_all m cs)

  pub set_metadata_all : Json → Constraints → Constraints
  set_metadata_all m nil = nil
  set_metadata_all m (cons c cs) = cons (set_metadata m c) (set_metadata_all m cs)

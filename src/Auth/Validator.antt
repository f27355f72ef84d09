-- ===== src/Auth/Validator.antt =====
-- indy_common/authorize/auth_request_validator.py: `WriteRequestValidator`.
pub mod Decision
pub mod Privilege
pub mod Trustees
use indy_node.Base.{String, Option, none, some, List, [], ◌∷◌}
use indy_node.Auth.Action.{Action, get_action_id}
use indy_node.Auth.Constraint.{Constraint}
use indy_node.Auth.Request.{Request}
use indy_node.Auth.Verdict.{Reason, ok, raised}
use indy_node.Auth.Authorizer.{authorize}
use indy_node.Auth.Strategy.{AuthMap, local_auth_constraint, config_ledger_auth_constraint}

-- `config.authPolicy`
pub data Policy : Type 0 where
  local_auth_policy config_ledger_auth_policy : Policy

-- The request is authorised; UnauthorizedClientRequest with the reason of the failed rule, or
-- because no rule allows the action; TypeError of an action id; `None` for no action at all.
pub data Validation : Type 0 where
  authorised : Validation
  unauthorised : Reason → Validation
  not_allowed : Validation
  bad_action_id : Validation
  no_action : Validation

module _ (state : String → Option String) (deserialize : String → Constraint) (policy : Policy)
    (auth_map : AuthMap) where
  -- `create_auth_strategy`, and the strategy's `get_auth_constraint`
  unfoldable pub get_auth_constraint : String → Option (Option Constraint)
  get_auth_constraint action_id = elim policy [
    | local_auth_policy ↦ local_auth_constraint auth_map action_id
    | config_ledger_auth_policy ↦ config_ledger_auth_constraint state deserialize auth_map action_id
  ]

module _ (role_of : String → Option String) (state : String → Option String)
    (deserialize : String → Constraint) (policy : Policy) (auth_map : AuthMap) where
  -- Each way through the body of the loop leaves the method, so only the first action is looked at.
  unfoldable pub validate : Request → List Action → Validation
  validate request [] = no_action
  validate request (action ∷ _) =
      elim (get_auth_constraint state deserialize policy auth_map (get_action_id action)) [
        | none ↦ bad_action_id
        | some found ↦ elim found [
          | none ↦ not_allowed
          | some constraint ↦ elim (authorize role_of request action constraint) [
            | ok _ ↦ authorised
            | raised reason ↦ unauthorised reason
          ]
        ]
      ]

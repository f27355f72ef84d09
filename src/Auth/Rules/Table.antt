-- ===== src/Auth/Rules/Table.antt =====
-- The default rules of indy_common/authorize/auth_map.py for roles, against
-- docs/source/auth_rules.md.
use indy_node.Base.{String, Option, none, some, ◌≡◌, refl, Bool}
use indy_node.Auth.Role.{trustee, steward, endorser, network_monitor}
use indy_node.Auth.Txn
use indy_node.Auth.Action.{
  Action, text, as_value, auth_action_add, auth_action_edit, get_action_id, split_action_id,
}
use indy_node.Auth.Constraint.{Constraint}
use indy_node.Auth.Strategy.{
  local_auth_constraint, find_auth_constraint_key, is_accepted_action_id, accepts_parts,
}
use indy_node.Auth.Rules.{
  auth_map, edit_frozen_ledgers, three_trustee_constraint, one_trustee_constraint, owner_constraint,
  steward_or_trustee_constraint,
}

pub data RoleName : Type 0 where
  trustee_name steward_name endorser_name network_monitor_name identity_owner_name : RoleName

abbrev pub code : RoleName → Option String
code trustee_name = some trustee
code steward_name = some steward
code endorser_name = some endorser
code network_monitor_name = some network_monitor
code identity_owner_name = none

-- Only the owner keeps a role as it is; a steward may turn a network monitor or an identity owner
-- into an endorser, and one of the two into the other; all else takes a trustee.
abbrev pub edit_rule : RoleName → RoleName → Constraint
edit_rule trustee_name trustee_name = owner_constraint
edit_rule steward_name steward_name = owner_constraint
edit_rule endorser_name endorser_name = owner_constraint
edit_rule network_monitor_name network_monitor_name = owner_constraint
edit_rule identity_owner_name identity_owner_name = owner_constraint
edit_rule network_monitor_name endorser_name = steward_or_trustee_constraint
edit_rule network_monitor_name identity_owner_name = steward_or_trustee_constraint
edit_rule identity_owner_name endorser_name = steward_or_trustee_constraint
edit_rule identity_owner_name network_monitor_name = steward_or_trustee_constraint
edit_rule _ _ = one_trustee_constraint

-- The action that the NYM handler builds for a change of a role.
abbrev pub role_edit : RoleName → RoleName → Bool → Action
role_edit from to is_owner =
    auth_action_edit Txn.nym (some (text "role")) (as_value (code from)) (as_value (code to))
      is_owner

-- Under the default rules the local strategy finds, for each change from one of the five roles to
-- another, the rule of the table `edit_rule`, whoever owns the record.
pub local_auth_constraint-edit_role :
    (from to : RoleName) (is_owner : Bool)
    → local_auth_constraint auth_map (get_action_id (role_edit from to is_owner))
      ≡ some (some (edit_rule from to))
unfolding local_auth_constraint find_auth_constraint_key is_accepted_action_id accepts_parts
    get_action_id split_action_id auth_action_edit auth_action_add
local_auth_constraint-edit_role trustee_name trustee_name owner = refl
local_auth_constraint-edit_role trustee_name _ owner = refl
local_auth_constraint-edit_role steward_name trustee_name owner = refl
local_auth_constraint-edit_role steward_name _ owner = refl
local_auth_constraint-edit_role endorser_name trustee_name owner = refl
local_auth_constraint-edit_role endorser_name _ owner = refl
local_auth_constraint-edit_role network_monitor_name trustee_name owner = refl
local_auth_constraint-edit_role network_monitor_name _ owner = refl
local_auth_constraint-edit_role identity_owner_name trustee_name owner = refl
local_auth_constraint-edit_role identity_owner_name _ owner = refl

pub local_auth_constraint-frozen :
    local_auth_constraint auth_map (get_action_id edit_frozen_ledgers)
    ≡ some (some three_trustee_constraint)
unfolding local_auth_constraint find_auth_constraint_key is_accepted_action_id accepts_parts
    get_action_id split_action_id auth_action_edit auth_action_add
local_auth_constraint-frozen = refl

-- ===== src/Auth/Tests.antt =====
-- Runs of indy_common/authorize on small inputs, and the theorems at inputs that meet their
-- hypotheses.
use indy_node.Base.{
  String, Option, none, some, ◌≡◌, refl, false, List, [], ◌∷◌, ◌⊎◌, ◌↔◌, if◌then◌else◌, ◌==◌,
}
use indy_node.Base.Split.{split, clean}
use indy_node.Auth.Role.{trustee, steward, get_named_role}
use indy_node.Auth.Action.{
  ActionDef, auth_action_add, auth_action_edit, get_action_id, split_action_id, compile_action_id,
}
use indy_node.Auth.Constraint.{Constraint, forbidden}
use indy_node.Auth.Request.{Request}
use indy_node.Auth.Verdict.{Reason, ok, accepted, run_authorizers, raised, not_enough_signatures}
use indy_node.Auth.Authorizer.{
  is_role_accepted, is_privileged, count_signers, get_sig_count, authorize_role,
  check_endorser_role, endorser_signed, has_privileged_sig, check_endorser_field_presence,
  authorize_endorser, authorize,
}
use indy_node.Auth.Authorizer.Grants.{Grants}
use indy_node.Auth.Authorizer.Grants.Tree.{authorize_iff, authorize_settles}
use indy_node.Auth.Strategy.{
  accepts_parts, is_accepted_action_id, find_auth_constraint_key, local_auth_constraint,
  get_from_state, config_ledger_auth_constraint, make_state_path_for_auth_rule,
}
use indy_node.Auth.Validator.{
  local_auth_policy, authorised, unauthorised, get_auth_constraint, validate,
}
use indy_node.Auth.Validator.Decision.{validate_iff}
use indy_node.Auth.Validator.Privilege.{role_change_signed, RoleChangeSigned}
use indy_node.Auth.Rules.{
  auth_map, three_trustee_constraint, edit_frozen_ledgers, trustee_or_owner_steward,
}
use indy_node.Auth.Rules.Table.{RoleName, role_edit}

program : Unit {0}
unfolding split clean compile_action_id split_action_id get_action_id auth_action_add
    auth_action_edit get_named_role run_authorizers is_role_accepted is_privileged count_signers
    get_sig_count authorize_role check_endorser_role endorser_signed has_privileged_sig
    check_endorser_field_presence authorize_endorser authorize accepts_parts is_accepted_action_id
    find_auth_constraint_key local_auth_constraint get_from_state config_ledger_auth_constraint
    make_state_path_for_auth_rule get_auth_constraint validate
program = tt

-- Three trustees, a steward and an identity owner.
abbrev role_of : String → Option String
role_of did =
    if did == "T1"
    then some trustee
    else if did == "T2"
    then some trustee
    else if did == "T3"
    then some trustee
    else if did == "S"
    then some steward
    else if did == "I"
    then some ""
    else none

abbrev signed_by : String → List (String × String) → Request
signed_by author sigs = record {
  identifier = author;
  req_id = 1;
  signature = none;
  signatures = sigs;
  endorser = none;
}

abbrev three : Request
three = signed_by "T1" (("T1", "x") ∷ ("T2", "y") ∷ ("T3", "z") ∷ [])

abbrev two : Request
two = signed_by "T1" (("T1", "x") ∷ ("T2", "y") ∷ [])

abbrev by_steward : Request
by_steward = record {
  identifier = "S";
  req_id = 2;
  signature = some "s";
  signatures = [];
  endorser = none;
}

abbrev nothing : String → Option String
nothing key = none

abbrev deserialized : String → Constraint
deserialized bytes = forbidden

freeze_accepted :
    validate role_of nothing deserialized local_auth_policy auth_map three
      (edit_frozen_ledgers ∷ [])
    ≡ authorised
unfolding program
freeze_accepted = refl

freeze_refused :
    validate role_of nothing deserialized local_auth_policy auth_map two (edit_frozen_ledgers ∷ [])
    ≡ unauthorised (not_enough_signatures (some trustee))
unfolding program
freeze_refused = refl

promotion :
    validate role_of nothing deserialized local_auth_policy auth_map by_steward
      (role_edit RoleName.identity_owner_name RoleName.endorser_name false ∷ [])
    ≡ authorised
unfolding program
promotion = refl

abbrev rotation : ActionDef
rotation = record {
  txn_type = "1";
  prefix = "EDIT";
  field = "verkey";
  old_value = "~A-b";
  new_value = "-c";
}

authorize_iff_example :
    (authorize role_of three edit_frozen_ledgers three_trustee_constraint ≡ ok accepted)
    ↔ Grants role_of three edit_frozen_ledgers three_trustee_constraint
authorize_iff_example = authorize_iff role_of three edit_frozen_ledgers three_trustee_constraint

authorize_settles_example :
    (authorize role_of two edit_frozen_ledgers trustee_or_owner_steward ≡ ok accepted)
    ⊎ ((r : Reason) × (authorize role_of two edit_frozen_ledgers trustee_or_owner_steward
          ≡ raised r))
authorize_settles_example =
    authorize_settles role_of two edit_frozen_ledgers trustee_or_owner_steward

validate_iff_example :
    (validate role_of nothing deserialized local_auth_policy auth_map two (edit_frozen_ledgers ∷ [])
      ≡ authorised)
    ↔ ((c : Constraint) × (get_auth_constraint nothing deserialized local_auth_policy auth_map
            (get_action_id edit_frozen_ledgers)
          ≡ some (some c))
        × Grants role_of two edit_frozen_ledgers c)
validate_iff_example =
    validate_iff role_of nothing deserialized local_auth_policy auth_map two edit_frozen_ledgers []

role_change_signed_example :
    RoleChangeSigned role_of by_steward
      (role_edit RoleName.identity_owner_name RoleName.endorser_name false)
      RoleName.identity_owner_name
      RoleName.endorser_name
role_change_signed_example =
    role_change_signed role_of nothing deserialized by_steward [] RoleName.identity_owner_name
      RoleName.endorser_name false (λ e. cc) promotion

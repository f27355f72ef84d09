-- ===== src/Auth/Rules.antt =====
-- indy_common/authorize/auth_map.py, part two: the constraints and the default rules. Each rule
-- stands under the id of its action, in the order of the source.
mod Actions
pub mod Table
use indy_node.Base.{ℕ, Bool, true, false, none, some, [], ◌∷◌, List, Option, String, update}
use indy_node.Base.Json
use indy_node.Auth.Role.{trustee, steward, endorser, network_monitor, identity_owner}
use indy_node.Auth.Action.{Action, get_action_id}
use indy_node.Auth.Constraint.{
  AuthConstraint, Constraint, Constraints, role_constraint, or_constraint, forbidden, nil, cons,
}
use indy_node.Auth.Strategy.{AuthMap}
pub use Actions.{
  edit_role_action, add_new_trustee, add_new_steward, add_new_endorser, add_new_network_monitor,
  add_new_identity_owner, key_rotation, txn_author_agreement, edit_txn_author_agreement,
  disable_txn_author_agreement, txn_author_agreement_aml, add_attrib, edit_attrib, add_schema,
  edit_schema, add_json_ld_context, edit_json_ld_context, add_rich_schema, edit_rich_schema,
  add_rich_schema_encoding, edit_rich_schema_encoding, add_rich_schema_mapping,
  edit_rich_schema_mapping, add_rich_schema_cred_def, edit_rich_schema_cred_def,
  add_rich_schema_pres_def, edit_rich_schema_pres_def, add_claim_def, edit_claim_def,
  adding_new_node, adding_new_node_with_empty_services, demote_node, promote_node, change_node_ip,
  change_node_port, change_client_ip, change_client_port, change_bls_key, start_upgrade,
  cancel_upgrade, pool_restart, pool_config, auth_rule, auth_rules, validator_info,
  add_revoc_reg_def, add_revoc_reg_entry, edit_revoc_reg_def, edit_revoc_reg_entry,
  edit_frozen_ledgers, edit_config_flag,
}

-- `AuthConstraint(role, sig_count, need_to_be_owner)` with the defaults of the other arguments.
abbrev pub auth_constraint : Option String → ℕ → Bool → Constraint
auth_constraint role sig_count need_to_be_owner = role_constraint (record {
  role = role;
  sig_count = sig_count;
  need_to_be_owner = need_to_be_owner;
  off_ledger_signature = none;
  metadata = Json.obj Json.end;
})

abbrev pub anyone_constraint : Constraint
anyone_constraint = auth_constraint (some "*") 1 false

abbrev pub no_one_constraint : Constraint
no_one_constraint = forbidden

abbrev pub owner_constraint : Constraint
owner_constraint = auth_constraint (some "*") 1 true

abbrev pub steward_owner_constraint : Constraint
steward_owner_constraint = auth_constraint (some steward) 1 true

abbrev pub one_trustee_constraint : Constraint
one_trustee_constraint = auth_constraint (some trustee) 1 false

abbrev pub three_trustee_constraint : Constraint
three_trustee_constraint = auth_constraint (some trustee) 3 false

abbrev pub steward_or_trustee_constraint : Constraint
steward_or_trustee_constraint = or_constraint (
    cons (auth_constraint (some steward) 1 false)
      (cons (auth_constraint (some trustee) 1 false) nil))

abbrev pub endorser_or_steward_or_trustee_constraint : Constraint
endorser_or_steward_or_trustee_constraint = or_constraint (
    cons (auth_constraint (some trustee) 1 false) (
      cons (auth_constraint (some steward) 1 false)
        (cons (auth_constraint (some endorser) 1 false) nil)))

abbrev pub trustee_or_owner_steward : Constraint
trustee_or_owner_steward = or_constraint (
    cons (auth_constraint (some trustee) 1 false)
      (cons (auth_constraint (some steward) 1 true) nil))

abbrev pub endorser_or_steward_or_trustee_owner_constraint : Constraint
endorser_or_steward_or_trustee_owner_constraint = or_constraint (
    cons (auth_constraint (some trustee) 1 true) (
      cons (auth_constraint (some steward) 1 true)
        (cons (auth_constraint (some endorser) 1 true) nil)))

abbrev pub base_rules : AuthMap
unfolding get_action_id
base_rules =
    (get_action_id add_new_trustee, one_trustee_constraint)
    ∷ (get_action_id add_new_steward, one_trustee_constraint)
    ∷ (get_action_id add_new_endorser, steward_or_trustee_constraint)
    ∷ (get_action_id add_new_network_monitor, steward_or_trustee_constraint)
    ∷ (get_action_id add_new_identity_owner, endorser_or_steward_or_trustee_constraint)
    ∷ (get_action_id key_rotation, owner_constraint)
    ∷ (get_action_id txn_author_agreement, one_trustee_constraint)
    ∷ (get_action_id edit_txn_author_agreement, one_trustee_constraint)
    ∷ (get_action_id disable_txn_author_agreement, one_trustee_constraint)
    ∷ (get_action_id txn_author_agreement_aml, one_trustee_constraint)
    ∷ (get_action_id add_attrib, owner_constraint)
    ∷ (get_action_id edit_attrib, owner_constraint)
    ∷ (get_action_id add_schema, endorser_or_steward_or_trustee_constraint)
    ∷ (get_action_id edit_schema, no_one_constraint)
    ∷ (get_action_id add_json_ld_context, endorser_or_steward_or_trustee_constraint)
    ∷ (get_action_id edit_json_ld_context, no_one_constraint)
    ∷ (get_action_id add_rich_schema, endorser_or_steward_or_trustee_constraint)
    ∷ (get_action_id edit_rich_schema, no_one_constraint)
    ∷ (get_action_id add_rich_schema_encoding, endorser_or_steward_or_trustee_constraint)
    ∷ (get_action_id edit_rich_schema_encoding, no_one_constraint)
    ∷ (get_action_id add_rich_schema_mapping, endorser_or_steward_or_trustee_constraint)
    ∷ (get_action_id edit_rich_schema_mapping, no_one_constraint)
    ∷ (get_action_id add_rich_schema_cred_def, endorser_or_steward_or_trustee_constraint)
    ∷ (get_action_id edit_rich_schema_cred_def, no_one_constraint)
    ∷ (get_action_id add_rich_schema_pres_def, endorser_or_steward_or_trustee_constraint)
    ∷ (get_action_id edit_rich_schema_pres_def, no_one_constraint)
    ∷ (get_action_id add_claim_def, endorser_or_steward_or_trustee_constraint)
    ∷ (get_action_id edit_claim_def, owner_constraint)
    ∷ (get_action_id adding_new_node, steward_owner_constraint)
    ∷ (get_action_id adding_new_node_with_empty_services, steward_owner_constraint)
    ∷ (get_action_id demote_node, trustee_or_owner_steward)
    ∷ (get_action_id promote_node, trustee_or_owner_steward)
    ∷ (get_action_id change_node_ip, steward_owner_constraint)
    ∷ (get_action_id change_node_port, steward_owner_constraint)
    ∷ (get_action_id change_client_ip, steward_owner_constraint)
    ∷ (get_action_id change_client_port, steward_owner_constraint)
    ∷ (get_action_id change_bls_key, steward_owner_constraint)
    ∷ (get_action_id start_upgrade, one_trustee_constraint)
    ∷ (get_action_id cancel_upgrade, one_trustee_constraint)
    ∷ (get_action_id pool_restart, one_trustee_constraint)
    ∷ (get_action_id pool_config, one_trustee_constraint)
    ∷ (get_action_id auth_rule, one_trustee_constraint)
    ∷ (get_action_id auth_rules, one_trustee_constraint)
    ∷ (
      get_action_id validator_info,
      or_constraint (
          cons (auth_constraint (some trustee) 1 false) (
            cons (auth_constraint (some steward) 1 false)
              (cons (auth_constraint (some network_monitor) 1 false) nil))),
    )
    ∷ (get_action_id add_revoc_reg_def, endorser_or_steward_or_trustee_constraint)
    ∷ (get_action_id add_revoc_reg_entry, endorser_or_steward_or_trustee_owner_constraint)
    ∷ (get_action_id edit_revoc_reg_def, owner_constraint)
    ∷ (get_action_id edit_revoc_reg_entry, owner_constraint)
    ∷ (get_action_id edit_frozen_ledgers, three_trustee_constraint)
    ∷ (get_action_id edit_config_flag, one_trustee_constraint)
    ∷ []

abbrev pub auth_map_trustee : AuthMap
unfolding get_action_id
auth_map_trustee =
    (get_action_id (edit_role_action (some trustee) (some trustee)), owner_constraint)
    ∷ (get_action_id (edit_role_action (some trustee) (some steward)), one_trustee_constraint)
    ∷ (get_action_id (edit_role_action (some trustee) (some endorser)), one_trustee_constraint)
    ∷ (
      get_action_id (edit_role_action (some trustee) (some network_monitor)),
      one_trustee_constraint,
    )
    ∷ (get_action_id (edit_role_action (some trustee) identity_owner), one_trustee_constraint)
    ∷ []

abbrev pub auth_map_steward : AuthMap
unfolding get_action_id
auth_map_steward =
    (get_action_id (edit_role_action (some steward) (some trustee)), one_trustee_constraint)
    ∷ (get_action_id (edit_role_action (some steward) (some steward)), owner_constraint)
    ∷ (get_action_id (edit_role_action (some steward) (some endorser)), one_trustee_constraint)
    ∷ (
      get_action_id (edit_role_action (some steward) (some network_monitor)),
      one_trustee_constraint,
    )
    ∷ (get_action_id (edit_role_action (some steward) identity_owner), one_trustee_constraint)
    ∷ []

abbrev pub auth_map_endorser : AuthMap
unfolding get_action_id
auth_map_endorser =
    (get_action_id (edit_role_action (some endorser) (some trustee)), one_trustee_constraint)
    ∷ (get_action_id (edit_role_action (some endorser) (some steward)), one_trustee_constraint)
    ∷ (get_action_id (edit_role_action (some endorser) (some endorser)), owner_constraint)
    ∷ (
      get_action_id (edit_role_action (some endorser) (some network_monitor)),
      one_trustee_constraint,
    )
    ∷ (get_action_id (edit_role_action (some endorser) identity_owner), one_trustee_constraint)
    ∷ []

abbrev pub auth_map_network_monitor : AuthMap
unfolding get_action_id
auth_map_network_monitor =
    (get_action_id (edit_role_action (some network_monitor) (some trustee)), one_trustee_constraint)
    ∷ (
      get_action_id (edit_role_action (some network_monitor) (some steward)),
      one_trustee_constraint,
    )
    ∷ (
      get_action_id (edit_role_action (some network_monitor) (some endorser)),
      steward_or_trustee_constraint,
    )
    ∷ (
      get_action_id (edit_role_action (some network_monitor) (some network_monitor)),
      owner_constraint,
    )
    ∷ (
      get_action_id (edit_role_action (some network_monitor) identity_owner),
      steward_or_trustee_constraint,
    )
    ∷ []

abbrev pub auth_map_identity_owner : AuthMap
unfolding get_action_id
auth_map_identity_owner =
    (get_action_id (edit_role_action identity_owner (some trustee)), one_trustee_constraint)
    ∷ (get_action_id (edit_role_action identity_owner (some steward)), one_trustee_constraint)
    ∷ (
      get_action_id (edit_role_action identity_owner (some endorser)),
      steward_or_trustee_constraint,
    )
    ∷ (
      get_action_id (edit_role_action identity_owner (some network_monitor)),
      steward_or_trustee_constraint,
    )
    ∷ (get_action_id (edit_role_action identity_owner identity_owner), owner_constraint)
    ∷ []

-- The dictionary after the five updates.
abbrev pub auth_map : AuthMap
auth_map =
    update
      (update
        (update (update (update base_rules auth_map_trustee) auth_map_steward) auth_map_endorser)
        auth_map_network_monitor)
      auth_map_identity_owner

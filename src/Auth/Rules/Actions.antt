-- ===== src/Auth/Rules/Actions.antt =====
-- indy_common/authorize/auth_map.py, part one: the actions that the default rules name.
use indy_node.Base.{true, none, some, [], ◌∷◌, Option, String}
use indy_node.Auth.Role.{trustee, steward, endorser, network_monitor}
use indy_node.Auth.Txn
use indy_node.Auth.Action.{Action, Value, text, services, auth_action_add, auth_action_edit}

abbrev as_value : Option String → Option Value
as_value none = none
as_value (some r) = some (text r)

-- `edit_role_actions[role_from][role_to]`
abbrev pub edit_role_action : Option String → Option String → Action
unfolding auth_action_edit
edit_role_action role_from role_to =
    auth_action_edit Txn.nym (some (text "role")) (as_value role_from) (as_value role_to) true

abbrev pub add_new_trustee : Action
unfolding auth_action_add
add_new_trustee = auth_action_add Txn.nym (some (text "role")) (some (text trustee)) true

abbrev pub add_new_steward : Action
unfolding auth_action_add
add_new_steward = auth_action_add Txn.nym (some (text "role")) (some (text steward)) true

abbrev pub add_new_endorser : Action
unfolding auth_action_add
add_new_endorser = auth_action_add Txn.nym (some (text "role")) (some (text endorser)) true

abbrev pub add_new_network_monitor : Action
unfolding auth_action_add
add_new_network_monitor =
    auth_action_add Txn.nym (some (text "role")) (some (text network_monitor)) true

abbrev pub add_new_identity_owner : Action
unfolding auth_action_add
add_new_identity_owner = auth_action_add Txn.nym (some (text "role")) none true

abbrev pub key_rotation : Action
unfolding auth_action_edit
key_rotation =
    auth_action_edit Txn.nym (some (text "verkey")) (some (text "*")) (some (text "*")) true

abbrev pub txn_author_agreement : Action
unfolding auth_action_add
txn_author_agreement =
    auth_action_add Txn.txn_author_agreement (some (text "*")) (some (text "*")) true

abbrev pub edit_txn_author_agreement : Action
unfolding auth_action_edit
edit_txn_author_agreement =
    auth_action_edit Txn.txn_author_agreement (some (text "*")) (some (text "*")) (some (text "*"))
      true

abbrev pub disable_txn_author_agreement : Action
unfolding auth_action_add
disable_txn_author_agreement =
    auth_action_add Txn.txn_author_agreement_disable (some (text "*")) (some (text "*")) true

abbrev pub txn_author_agreement_aml : Action
unfolding auth_action_add
txn_author_agreement_aml =
    auth_action_add Txn.txn_author_agreement_aml (some (text "*")) (some (text "*")) true

abbrev pub add_attrib : Action
unfolding auth_action_add
add_attrib = auth_action_add Txn.attrib (some (text "*")) (some (text "*")) true

abbrev pub edit_attrib : Action
unfolding auth_action_edit
edit_attrib = auth_action_edit Txn.attrib (some (text "*")) (some (text "*")) (some (text "*")) true

abbrev pub add_schema : Action
unfolding auth_action_add
add_schema = auth_action_add Txn.schema (some (text "*")) (some (text "*")) true

abbrev pub edit_schema : Action
unfolding auth_action_edit
edit_schema = auth_action_edit Txn.schema (some (text "*")) (some (text "*")) (some (text "*")) true

abbrev pub add_json_ld_context : Action
unfolding auth_action_add
add_json_ld_context = auth_action_add Txn.json_ld_context (some (text "*")) (some (text "*")) true

abbrev pub edit_json_ld_context : Action
unfolding auth_action_edit
edit_json_ld_context =
    auth_action_edit Txn.json_ld_context (some (text "*")) (some (text "*")) (some (text "*")) true

abbrev pub add_rich_schema : Action
unfolding auth_action_add
add_rich_schema = auth_action_add Txn.rich_schema (some (text "*")) (some (text "*")) true

abbrev pub edit_rich_schema : Action
unfolding auth_action_edit
edit_rich_schema =
    auth_action_edit Txn.rich_schema (some (text "*")) (some (text "*")) (some (text "*")) true

abbrev pub add_rich_schema_encoding : Action
unfolding auth_action_add
add_rich_schema_encoding =
    auth_action_add Txn.rich_schema_encoding (some (text "*")) (some (text "*")) true

abbrev pub edit_rich_schema_encoding : Action
unfolding auth_action_edit
edit_rich_schema_encoding =
    auth_action_edit Txn.rich_schema_encoding (some (text "*")) (some (text "*")) (some (text "*"))
      true

abbrev pub add_rich_schema_mapping : Action
unfolding auth_action_add
add_rich_schema_mapping =
    auth_action_add Txn.rich_schema_mapping (some (text "*")) (some (text "*")) true

abbrev pub edit_rich_schema_mapping : Action
unfolding auth_action_edit
edit_rich_schema_mapping =
    auth_action_edit Txn.rich_schema_mapping (some (text "*")) (some (text "*")) (some (text "*"))
      true

abbrev pub add_rich_schema_cred_def : Action
unfolding auth_action_add
add_rich_schema_cred_def =
    auth_action_add Txn.rich_schema_cred_def (some (text "*")) (some (text "*")) true

abbrev pub edit_rich_schema_cred_def : Action
unfolding auth_action_edit
edit_rich_schema_cred_def =
    auth_action_edit Txn.rich_schema_cred_def (some (text "*")) (some (text "*")) (some (text "*"))
      true

abbrev pub add_rich_schema_pres_def : Action
unfolding auth_action_add
add_rich_schema_pres_def =
    auth_action_add Txn.rich_schema_pres_def (some (text "*")) (some (text "*")) true

abbrev pub edit_rich_schema_pres_def : Action
unfolding auth_action_edit
edit_rich_schema_pres_def =
    auth_action_edit Txn.rich_schema_pres_def (some (text "*")) (some (text "*")) (some (text "*"))
      true

abbrev pub add_claim_def : Action
unfolding auth_action_add
add_claim_def = auth_action_add Txn.claim_def (some (text "*")) (some (text "*")) true

abbrev pub edit_claim_def : Action
unfolding auth_action_edit
edit_claim_def =
    auth_action_edit Txn.claim_def (some (text "*")) (some (text "*")) (some (text "*")) true

abbrev pub adding_new_node : Action
unfolding auth_action_add
adding_new_node =
    auth_action_add Txn.node (some (text "services")) (some (services ("VALIDATOR" ∷ []))) true

abbrev pub adding_new_node_with_empty_services : Action
unfolding auth_action_add
adding_new_node_with_empty_services =
    auth_action_add Txn.node (some (text "services")) (some (services [])) true

abbrev pub demote_node : Action
unfolding auth_action_edit
demote_node =
    auth_action_edit Txn.node (some (text "services")) (some (services ("VALIDATOR" ∷ [])))
      (some (services [])) true

abbrev pub promote_node : Action
unfolding auth_action_edit
promote_node =
    auth_action_edit Txn.node (some (text "services")) (some (services []))
      (some (services ("VALIDATOR" ∷ []))) true

abbrev pub change_node_ip : Action
unfolding auth_action_edit
change_node_ip =
    auth_action_edit Txn.node (some (text "node_ip")) (some (text "*")) (some (text "*")) true

abbrev pub change_node_port : Action
unfolding auth_action_edit
change_node_port =
    auth_action_edit Txn.node (some (text "node_port")) (some (text "*")) (some (text "*")) true

abbrev pub change_client_ip : Action
unfolding auth_action_edit
change_client_ip =
    auth_action_edit Txn.node (some (text "client_ip")) (some (text "*")) (some (text "*")) true

abbrev pub change_client_port : Action
unfolding auth_action_edit
change_client_port =
    auth_action_edit Txn.node (some (text "client_port")) (some (text "*")) (some (text "*")) true

abbrev pub change_bls_key : Action
unfolding auth_action_edit
change_bls_key =
    auth_action_edit Txn.node (some (text "blskey")) (some (text "*")) (some (text "*")) true

abbrev pub start_upgrade : Action
unfolding auth_action_add
start_upgrade = auth_action_add Txn.pool_upgrade (some (text "action")) (some (text "start")) true

abbrev pub cancel_upgrade : Action
unfolding auth_action_edit
cancel_upgrade =
    auth_action_edit Txn.pool_upgrade (some (text "action")) (some (text "start"))
      (some (text "cancel")) true

abbrev pub pool_restart : Action
unfolding auth_action_add
pool_restart = auth_action_add Txn.pool_restart (some (text "action")) (some (text "*")) true

abbrev pub pool_config : Action
unfolding auth_action_edit
pool_config =
    auth_action_edit Txn.pool_config (some (text "action")) (some (text "*")) (some (text "*")) true

abbrev pub auth_rule : Action
unfolding auth_action_edit
auth_rule =
    auth_action_edit Txn.auth_rule (some (text "*")) (some (text "*")) (some (text "*")) true

abbrev pub auth_rules : Action
unfolding auth_action_edit
auth_rules =
    auth_action_edit Txn.auth_rules (some (text "*")) (some (text "*")) (some (text "*")) true

abbrev pub validator_info : Action
unfolding auth_action_add
validator_info = auth_action_add Txn.validator_info (some (text "*")) (some (text "*")) true

abbrev pub add_revoc_reg_def : Action
unfolding auth_action_add
add_revoc_reg_def = auth_action_add Txn.revoc_reg_def (some (text "*")) (some (text "*")) true

abbrev pub add_revoc_reg_entry : Action
unfolding auth_action_add
add_revoc_reg_entry = auth_action_add Txn.revoc_reg_entry (some (text "*")) (some (text "*")) true

abbrev pub edit_revoc_reg_def : Action
unfolding auth_action_edit
edit_revoc_reg_def =
    auth_action_edit Txn.revoc_reg_def (some (text "*")) (some (text "*")) (some (text "*")) true

abbrev pub edit_revoc_reg_entry : Action
unfolding auth_action_edit
edit_revoc_reg_entry =
    auth_action_edit Txn.revoc_reg_entry (some (text "*")) (some (text "*")) (some (text "*")) true

abbrev pub edit_frozen_ledgers : Action
unfolding auth_action_edit
edit_frozen_ledgers =
    auth_action_edit Txn.ledgers_freeze (some (text "*")) (some (text "*")) (some (text "*")) true

abbrev pub edit_config_flag : Action
unfolding auth_action_edit
edit_config_flag =
    auth_action_edit Txn.flag (some (text "*")) (some (text "*")) (some (text "*")) true

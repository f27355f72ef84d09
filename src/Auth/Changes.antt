-- ===== src/Auth/Changes.antt =====
-- The handlers of AUTH_RULE and AUTH_RULES transactions, which change the rules of the config
-- ledger: abstract_auth_rule_handler.py, auth_rule_handler.py, auth_rules_handler.py and
-- static_auth_rule_helper.py under indy_node/server/request_handlers/config_req_handlers/auth_rule.
mod Tests
pub mod Effect
use indy_node.Base.{
  String, Option, none, some, Bool, true, false, not, ◌&&◌, List, [], ◌∷◌, is_none, has_key,
  if◌then◌else◌, ◌==◌,
}
use indy_node.Base.Json.{Json}
use indy_node.Auth.Action.{
  as_value, auth_action_add, auth_action_edit, get_action_id, edit_prefix, add_prefix,
}
use indy_node.Auth.Constraint.{Constraint}
use indy_node.Auth.Constraint.Dict.{as_dict, create_constraint}
use indy_node.Auth.Strategy.{AuthMap, make_state_path_for_auth_rule}

-- One rule of an operation. The old value may be absent.
pub record RuleChange : Type 0 where
  pub auth_action : Option String
  pub auth_type : String
  pub field : Option String
  pub old_value : Option (Option String)
  pub new_value : Option String
  pub constraint : Json

abbrev pub is_action : RuleChange → String → Bool
is_action op prefix = elim op.auth_action [ none ↦ false | some a ↦ a == prefix ]

abbrev pub old_or_none : Option (Option String) → Option String
old_or_none none = none
old_or_none (some v) = v

-- `get_auth_key`
unfoldable pub get_auth_key : RuleChange → String
get_auth_key op =
    if is_action op edit_prefix
    then get_action_id (
        auth_action_edit op.auth_type (as_value op.field) (as_value (old_or_none op.old_value))
          (as_value op.new_value) true)
    else get_action_id
        (auth_action_add op.auth_type (as_value op.field) (as_value op.new_value) true)

-- The rule passes; InvalidClientRequest of `check_auth_key`; or an exception of the constraint.
pub data RuleCheck : Type 0 where
  rule_valid old_value_needed old_value_forbidden unknown_key bad_constraint : RuleCheck

unfoldable pub check_auth_key : AuthMap → RuleChange → RuleCheck
check_auth_key auth_map op =
    if is_none op.old_value && is_action op edit_prefix
    then old_value_needed
    else if not (is_none op.old_value) && is_action op add_prefix
    then old_value_forbidden
    else if not (has_key (get_auth_key op) auth_map)
    then unknown_key
    else rule_valid

-- `_static_validation_for_rule`
unfoldable pub static_validation_for_rule : AuthMap → RuleChange → RuleCheck
static_validation_for_rule auth_map op = elim (create_constraint op.constraint) [
  | none ↦ bad_constraint
  | some c ↦ check_auth_key auth_map op
]

-- The config state: the bytes under each path.
abbrev pub ConfigState : Type 0
ConfigState = String → Option String

abbrev pub set_state : String → String → ConfigState → ConfigState
set_state key value state path = if path == key then some value else state path

-- `serialize` is the serializer of dictionaries.
module _ (serialize : Json → String) where
  -- `update_state` of AuthRuleHandler; `none` is an exception of the constraint.
  unfoldable pub update_rule : RuleChange → ConfigState → Option ConfigState
  update_rule op state = elim (create_constraint op.constraint) [
    | none ↦ none
    | some c ↦
        some (
          set_state (make_state_path_for_auth_rule (get_auth_key op)) (serialize (as_dict c)) state)
  ]

  abbrev pub then_rules :
      Option ConfigState → (ConfigState → Option ConfigState) → Option ConfigState
  then_rules none f = none
  then_rules (some state) f = f state

  -- `update_state` of AuthRulesHandler
  unfoldable pub update_rules : List RuleChange → ConfigState → Option ConfigState
  update_rules [] state = some state
  update_rules (op ∷ ops) state =
      then_rules (update_rule op state) (λ after. update_rules ops after)

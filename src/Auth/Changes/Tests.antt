-- ===== src/Auth/Changes/Tests.antt =====
-- A change of a rule, and the theorem at an input that meets its hypotheses.
use indy_node.Base.{String, none, some, ◌≡◌, refl, arith, eq_iff}
use indy_node.Base.Json.{Json, item_of}
use indy_node.Base.Split.{split, clean}
use indy_node.Auth.Action.{
  auth_action_add, auth_action_edit, get_action_id, split_action_id, compile_action_id,
}
use indy_node.Auth.Constraint.{Constraint, forbidden}
use indy_node.Auth.Constraint.Dict.{as_dict, create_by_id, create_constraint, children_of}
use indy_node.Auth.Rules.{auth_map}
use indy_node.Auth.Strategy.{
  accepts_parts, is_accepted_action_id, find_auth_constraint_key, config_ledger_auth_constraint,
}
use indy_node.Auth.Changes.{
  RuleChange, get_auth_key, check_auth_key, static_validation_for_rule, rule_valid, unknown_key,
  ConfigState, update_rule, update_rules,
}
use indy_node.Auth.Changes.Effect.{Reads, update_rule_lem}

program : Unit {0}
unfolding split clean compile_action_id split_action_id get_action_id auth_action_add
    auth_action_edit item_of as_dict create_by_id create_constraint children_of accepts_parts
    is_accepted_action_id find_auth_constraint_key config_ledger_auth_constraint get_auth_key
    check_auth_key static_validation_for_rule update_rule update_rules
program = tt

abbrev bytes_of : Json → String
bytes_of j = "bytes"

abbrev constraint_of : String → Constraint
constraint_of s = forbidden

abbrev change : RuleChange
change = record {
  auth_action = some "EDIT";
  auth_type = "9";
  field = some "*";
  old_value = some (some "*");
  new_value = some "*";
  constraint = as_dict forbidden;
}

change_valid : static_validation_for_rule auth_map change ≡ rule_valid
unfolding program
change_valid = refl

unknown_refused :
    static_validation_for_rule auth_map (record change { auth_type = "nothing" }) ≡ unknown_key
unfolding program
unknown_refused = refl

only_forbidden : (c : Constraint) → create_constraint (as_dict forbidden) ≡ some c → forbidden ≡ c
unfolding program
only_forbidden c e = ground (arith, e)

change-Reads : Reads bytes_of constraint_of forbidden
change-Reads = record {
  dict_of = λ s. as_dict forbidden;
  read_back = refl;
  nonempty = λ e. ground (arith, eq_iff "bytes" "", e);
  creates = λ s c e. only_forbidden c e;
}

abbrev empty_state : ConfigState
empty_state path = none

is_created : create_constraint (as_dict forbidden) ≡ some forbidden
unfolding program
is_created = refl

update_rule_lem_example :
    (after : ConfigState) × (update_rule bytes_of change empty_state ≡ some after)
    × ((action_id : String)
        → find_auth_constraint_key action_id auth_map ≡ some (some (get_auth_key change))
        → config_ledger_auth_constraint after constraint_of auth_map action_id
          ≡ some (some forbidden))
update_rule_lem_example =
    update_rule_lem bytes_of constraint_of auth_map change empty_state forbidden change-Reads
      is_created

key_is_found :
    find_auth_constraint_key "9--EDIT--*--*--*" auth_map ≡ some (some (get_auth_key change))
unfolding program
key_is_found = refl

-- ===== src/Auth/Strategy.antt =====
-- indy_common/authorize/auth_cons_strategies.py: which rule applies to an action. The outer `none`
-- is the TypeError of `split_action_id` on an id that does not have five parts.
pub mod Lookup
use Prim.Native.String as Text
use indy_node.Base.{
  String, Option, none, some, Bool, true, false, not, ◌&&◌, List, [], ◌∷◌, get, if◌then◌else◌, ◌==◌,
}
use indy_node.Auth.Action.{ActionDef, split_action_id}
use indy_node.Auth.Constraint.{Constraint}

infixl 5 ◌>>=◌
abbrev pub ◌>>=◌ {ℓ κ} : {A : Type ℓ} {B : Type κ} → Option A → (A → Option B) → Option B
none >>= f = none
some a >>= f = f a

-- The dictionary of default rules: an action id against the constraint.
abbrev pub AuthMap : Type 0
AuthMap = List (String × Constraint)

-- The checks on the five parts of the rule's id and of the request's.
unfoldable pub accepts_parts : ActionDef → ActionDef → Bool
accepts_parts am r =
    if not (r.prefix == am.prefix)
    then false
    else if not (r.txn_type == am.txn_type)
    then false
    else if not (r.field == am.field) && not (am.field == "*")
    then false
    else if not (r.old_value == am.old_value) && not (am.old_value == "*")
    then false
    else if not (r.new_value == am.new_value) && not (am.new_value == "*")
    then false
    else true

unfoldable pub is_accepted_action_id : String → String → Option Bool
is_accepted_action_id from_auth_map from_req = do
  am ← split_action_id from_auth_map
  r ← split_action_id from_req
  some (accepts_parts am r)

-- The first key of the dictionary that accepts the action; the inner `none` is `None`.
unfoldable pub find_auth_constraint_key : String → AuthMap → Option (Option String)
find_auth_constraint_key action_id [] = some none
find_auth_constraint_key action_id ((am_id, _) ∷ rest) =
    let later = find_auth_constraint_key action_id rest in
    do
      accepted ← is_accepted_action_id am_id action_id
      if accepted then some (some am_id) else later

-- `auth_map.get(am_id)`, where `None` is no key.
abbrev pub get_rule : Option String → AuthMap → Option Constraint
get_rule none auth_map = none
get_rule (some am_id) auth_map = get am_id auth_map

-- `LocalAuthStrategy.get_auth_constraint`
unfoldable pub local_auth_constraint : AuthMap → String → Option (Option Constraint)
local_auth_constraint auth_map action_id = do
  am_id ← find_auth_constraint_key action_id auth_map
  some (get_rule am_id auth_map)

-- indy_common/state/config.py
unfoldable pub make_state_path_for_auth_rule : String → String
make_state_path_for_auth_rule action_id = Text.◌++◌ "1:" action_id

-- The config state, as bytes under a path (uncommitted values included), and the serializer of
-- constraints are libraries of the program.
module _ (state : String → Option String) (deserialize : String → Constraint) where
  -- A missing value and an empty one count as nothing.
  unfoldable pub get_from_state : String → Option Constraint
  get_from_state key = elim (state key) [
    | none ↦ none
    | some bytes ↦ if bytes == "" then none else some (deserialize bytes)
  ]

  -- `ConfigLedgerAuthStrategy._find_auth_constraint`, less its count of metrics events. An id that
  -- is the empty text counts as none.
  unfoldable pub config_ledger_auth_constraint : AuthMap → String → Option (Option Constraint)
  config_ledger_auth_constraint auth_map action_id = do
    key ← find_auth_constraint_key action_id auth_map
    some (elim key [
      | none ↦ none
      | some am_id ↦
          if am_id == ""
          then none
          else elim (get_from_state (make_state_path_for_auth_rule am_id)) [
            | none ↦ get am_id auth_map
            | some constraint ↦ some constraint
          ]
    ])

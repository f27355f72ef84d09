-- ===== src/Auth/Action/RoundTrip.antt =====
-- `split_action_id` against `compile_action_id` of indy_common/authorize/auth_actions.py.
use indy_node.Base.{◌≡◌, some, [], ◌∷◌, true}
use indy_node.Base.Split.{clean, split-join}
use indy_node.Auth.Action.{
  ActionDef, Action, compile_action_id, split_action_id, get_action_id, parts,
}

-- No part of the action holds "--" or ends in a dash.
pub record IsClean (d : ActionDef) : Type 0 where
  pub txn_type : clean d.txn_type ≡ true
  pub prefix : clean d.prefix ≡ true
  pub field : clean d.field ≡ true
  pub old_value : clean d.old_value ≡ true
  pub new_value : clean d.new_value ≡ true

-- Splitting the id of an action gives back its five parts, when no part holds the delimiter "--"
-- and no part ends in a dash.
pub split-compile : (d : ActionDef) → IsClean d → split_action_id (compile_action_id d) ≡ some d
unfolding split_action_id compile_action_id
split-compile d h = rw (
    split-join d.txn_type (d.prefix ∷ d.field ∷ d.old_value ∷ d.new_value ∷ [])
      (h.txn_type, (h.prefix, (h.field, (h.old_value, (h.new_value, tt))))))

pub split-get_action_id :
    (a : Action) → IsClean (parts a) → split_action_id (get_action_id a) ≡ some (parts a)
unfolding get_action_id
split-get_action_id a h = split-compile (parts a) h

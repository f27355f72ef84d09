-- ===== src/Upgrade/Handler/Permission.antt =====
-- Who can schedule and cancel an upgrade: pool_upgrade_handler.py under
-- indy_node/server/request_handlers/config_req_handlers with the default rules of
-- indy_common/authorize/auth_map.py.
use indy_node.Base.{ℕ, String, Option, none, some, List}
use indy_node.Auth.Action.{Action}
use indy_node.Auth.Constraint.{Constraint}
use indy_node.Auth.Request.{Request}
use indy_node.Auth.Rules.{auth_map, one_trustee_constraint}
use indy_node.Auth.Validator.{Validation, local_auth_policy, validate}
use indy_node.Upgrade.State.{Platform}
use indy_node.Upgrade.Handler.{UpgradeOperation, Payload, status_of}

pub data Status : Type 0 where
  never was_started was_cancelled : Status

pub data Wish : Type 0 where
  to_start to_cancel : Wish

abbrev pub status_text : Status → String
status_text never = "*"
status_text was_started = "start"
status_text was_cancelled = "cancel"

abbrev pub wish_text : Wish → String
wish_text to_start = "start"
wish_text to_cancel = "cancel"

-- An upgrade is started once and then cancelled at most once.
abbrev pub MayFollow : Status → Wish → Type 0
MayFollow never to_start = Unit
MayFollow was_started to_cancel = Unit
MayFollow _ _ = ⊥

abbrev rule_for : Status → Wish → Option Constraint
rule_for never to_start = some one_trustee_constraint
rule_for was_started to_cancel = some one_trustee_constraint
rule_for _ _ = none

module _ {V : Type 0} (p : Platform V) (upgrade_entry : String)
    (role_of state : String → Option String) (deserialize : String → Constraint)
    (payload_at : ℕ → Payload) (size : ℕ) (q : Request) (op : UpgradeOperation) where
  abbrev authorise : Request → List Action → Validation
  authorise = validate role_of state deserialize local_auth_policy auth_map

  abbrev status : String
  status = status_of p upgrade_entry authorise payload_at size op

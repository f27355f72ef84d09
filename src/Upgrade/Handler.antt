-- ===== src/Upgrade/Handler.antt =====
-- indy_node/server/request_handlers/config_req_handlers/pool_upgrade_handler.py, and the checks of
-- versions in indy_node/server/upgrader.py that it calls.
mod Tests
pub mod Permission
use Prim.Native.String as Text
use Prim.Native.Char.{Char, code}
use indy_node.Base.Chars.{is_space}
use indy_node.Base.{
  ℕ, String, Option, none, some, Bool, true, false, not, ◌&&◌, ◌||◌, List, [], ◌∷◌, num_eq, leb,
  opt_eq, if◌then◌else◌, ◌==◌,
}
use indy_node.Auth.Txn
use indy_node.Auth.Action.{Action, text, auth_action_add, auth_action_edit}
use indy_node.Auth.Request.{Request}
use indy_node.Auth.Validator.{Validation, authorised, no_action}
use indy_node.Upgrade.Ledger.{get_upgrade_txn}
use indy_node.Upgrade.Schedule.{Schedule, schedule_valid, is_schedule_valid}
use indy_node.Upgrade.State.{Platform, or_else}

-- The operation of a POOL_UPGRADE request.
pub record UpgradeOperation : Type 0 where
  pub action : String
  pub name : String
  pub version : String
  pub schedule : Option (List (String × String))
  pub force : Bool
  pub reinstall : Bool
  pub pkg_name : Option String

-- What the handler reads of the payload of any transaction of the config ledger.
pub record Payload : Type 0 where
  pub name : Option String
  pub version : Option String
  pub action : Option String

-- The answers of `check_upgrade_possible`.
pub data Possible : Type 0 where
  possible invalid_version not_installed not_of_pool not_upgradable : Possible

pub data UpgradeCheck : Type 0 where
  passed : UpgradeCheck
  bad_action : String → UpgradeCheck
  bad_schedule : Schedule → UpgradeCheck
  already_scheduled : UpgradeCheck
  denied : Validation → UpgradeCheck
  package_empty : UpgradeCheck
  not_possible : Possible → UpgradeCheck

unfoldable pub starts_with : String → String → Bool
starts_with Text.[] s = true
starts_with (Text.◌∷◌ c p) Text.[] = false
starts_with (Text.◌∷◌ c p) (Text.◌∷◌ d s) =
    let rest = starts_with p s in num_eq (code c) (code d) && rest

-- `part in s`
unfoldable pub contains : (part s : String) → Bool
contains part Text.[] = starts_with part Text.[]
contains part (Text.◌∷◌ c s) = let rest = contains part s in starts_with part (Text.◌∷◌ c s) || rest

abbrev pub app_name : String
app_name = "indy-node"

abbrev pub none_contains : List String → Bool
none_contains [] = true
none_contains (d ∷ ds) = not (contains app_name d) && none_contains ds

abbrev pub begins_with_and : String → Bool
begins_with_and Text.[] = false
begins_with_and (Text.◌∷◌ c s) = num_eq (code c) b'&'

-- The first package: what stands before the first blank, ";", "&&" or "|". Ends of lines are
-- blanks.
unfoldable pub first_package : String → String
first_package Text.[] = ""
first_package (Text.◌∷◌ c s) =
    let rest = first_package s in
    if is_space c
      || (num_eq (code c) b';'
          || (num_eq (code c) b'|' || (num_eq (code c) b'&' && begins_with_and s)))
    then ""
    else Text.◌∷◌ c rest

module _ {V : Type 0} (p : Platform V) where
  -- `is_version_upgradable`
  unfoldable pub is_version_upgradable : (old new : V) → (reinstall : Bool) → Bool
  is_version_upgradable old new reinstall = p.newer new old || (p.same_version new old && reinstall)

  unfoldable pub check_installed :
      (pkg_name : String) → (target : V) → Bool → Option (V × List String) → Possible
  check_installed pkg_name target reinstall none = not_installed
  check_installed pkg_name target reinstall (some (upstream, deps)) =
      if not (contains app_name pkg_name) && none_contains deps
      then not_of_pool
      else if not (is_version_upgradable upstream target reinstall)
      then not_upgradable
      else possible

  -- `check_upgrade_possible`
  unfoldable pub check_upgrade_possible :
      (pkg_name target_ver : String) → (reinstall : Bool) → Possible
  check_upgrade_possible pkg_name target_ver reinstall =
      elim (p.parse_version pkg_name target_ver) [
        | none ↦ invalid_version
        | some target ↦ check_installed pkg_name target reinstall (p.curr_pkg_info pkg_name)
      ]

-- `static_validation`
unfoldable pub static_validation :
    (parse : String → Option ℕ) (min_sep now : ℕ)
    → List (String × List String)
    → UpgradeOperation
    → UpgradeCheck
static_validation parse min_sep now node_srvs op =
    if op.action == "cancel"
    then passed
    else if not (op.action == "start")
    then bad_action op.action
    else elim (is_schedule_valid parse min_sep now (or_else op.schedule []) node_srvs op.force) [
      | schedule_valid ↦ passed
      | refusal ↦ bad_schedule refusal
    ]

-- `AuthActionAdd` where no earlier transaction has the name and the version, else `AuthActionEdit`.
unfoldable pub upgrade_action : (status : String) (action : String) → Action
upgrade_action status action =
    if status == "*"
    then auth_action_add Txn.pool_upgrade (some (text "action")) (some (text action)) true
    else auth_action_edit Txn.pool_upgrade (some (text "action")) (some (text status))
        (some (text action)) true

module _ {V : Type 0} (p : Platform V) (upgrade_entry : String)
    (authorise : Request → List Action → Validation) (payload_at : ℕ → Payload) (size : ℕ) where
  abbrev pub same_upgrade : UpgradeOperation → Payload → Bool
  same_upgrade op txn = opt_eq txn.name (some op.name) && opt_eq txn.version (some op.version)

  -- The action of the last transaction with the name and the version, or "*".
  unfoldable pub status_of : UpgradeOperation → String
  status_of op = elim (get_upgrade_txn payload_at size (same_upgrade op) none true) [
    | none ↦ "*"
    | some txn ↦ or_else txn.action "*"
  ]

  unfoldable pub package_check : UpgradeOperation → UpgradeCheck
  package_check op =
      let pkg = or_else op.pkg_name upgrade_entry in
      if pkg == ""
      then package_empty
      else elim (check_upgrade_possible p (first_package pkg) op.version op.reinstall) [
        | possible ↦ passed
        | refusal ↦ not_possible refusal
      ]

  -- What follows the answer of the request validator.
  unfoldable pub after_validation : Validation → UpgradeOperation → UpgradeCheck
  after_validation authorised op = package_check op
  after_validation no_action op = package_check op
  after_validation v op = denied v

  -- `additional_dynamic_validation`
  unfoldable pub additional_dynamic_validation : Request → UpgradeOperation → UpgradeCheck
  additional_dynamic_validation request op =
      if (status_of op == "start") && (op.action == "start")
      then already_scheduled
      else after_validation (authorise request (upgrade_action (status_of op) op.action ∷ [])) op

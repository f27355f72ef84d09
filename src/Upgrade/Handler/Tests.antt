-- ===== src/Upgrade/Handler/Tests.antt =====
-- Runs of the handler of upgrades, and the theorem at an input that meets its hypotheses.
use indy_node.Base.{
  ℕ, String, Option, none, some, ◌≡◌, refl, false, not, [], ◌∷◌, ◌==◌, if◌then◌else◌,
}
use indy_node.Upgrade.Ledger.{find_down, find_up, get_upgrade_txn}
use indy_node.Upgrade.State.{Platform}
use indy_node.Base.Split.{split, clean}
use indy_node.Auth.Role.{trustee, get_named_role}
use indy_node.Auth.Constraint.{Constraint, forbidden}
use indy_node.Auth.Request.{Request}
use indy_node.Auth.Action.{
  auth_action_add, auth_action_edit, get_action_id, split_action_id, compile_action_id,
}
use indy_node.Auth.Verdict.{run_authorizers}
use indy_node.Auth.Authorizer.{
  is_role_accepted, is_privileged, count_signers, get_sig_count, authorize_role,
  check_endorser_role, endorser_signed, has_privileged_sig, check_endorser_field_presence,
  authorize_endorser, authorize,
}
use indy_node.Auth.Strategy.{
  accepts_parts, is_accepted_action_id, find_auth_constraint_key, local_auth_constraint,
}
use indy_node.Auth.Validator.{get_auth_constraint, validate}
use indy_node.Upgrade.Handler.{
  UpgradeOperation, Payload, starts_with, contains, first_package, is_version_upgradable,
  check_installed, check_upgrade_possible, upgrade_action, status_of, package_check,
  after_validation, additional_dynamic_validation,
}

abbrev installed : Platform String
installed = record {
  parse_version = λ pkg version. some version;
  same_version = λ v w. v == w;
  newer = λ v w. not (v == w);
  full = λ v. v;
  parse_date = λ date. none;
  curr_pkg_info = λ pkg. some ("1.2.2", []);
}

abbrev role_of : String → Option String
role_of did = if did == "T1" then some trustee else none

abbrev nothing : String → Option String
nothing key = none

abbrev deserialized : String → Constraint
deserialized bytes = forbidden

abbrev by_trustee : Request
by_trustee = record {
  identifier = "T1";
  req_id = 1;
  signature = some "sig";
  signatures = [];
  endorser = none;
}

abbrev operation : UpgradeOperation
operation = record {
  action = "start";
  name = "release";
  version = "1.2.3";
  schedule = some (("alpha", "noon") ∷ []);
  force = false;
  reinstall = false;
  pkg_name = some "indy-node; reboot";
}

abbrev no_name : ℕ → Payload
no_name n = record { name = none; version = none; action = none }

first_package_cut : first_package "indy-node; reboot" ≡ "indy-node"
unfolding first_package
first_package_cut = refl

handler_program : Unit {0}
unfolding find_down find_up get_upgrade_txn split clean compile_action_id split_action_id
    get_action_id auth_action_add auth_action_edit get_named_role run_authorizers is_role_accepted
    is_privileged count_signers get_sig_count authorize_role check_endorser_role endorser_signed
    has_privileged_sig check_endorser_field_presence authorize_endorser authorize accepts_parts
    is_accepted_action_id find_auth_constraint_key local_auth_constraint get_auth_constraint
    validate starts_with contains first_package is_version_upgradable check_installed
    check_upgrade_possible upgrade_action status_of package_check after_validation
    additional_dynamic_validation
handler_program = tt

-- ===== src/Revocation/Tests.antt =====
-- Runs of the revocation strategies, and the theorems at inputs that meet their hypotheses.
use indy_node.Base.{
  ℕ, String, ◌≡◌, refl, false, Option, none, some, List, [], ◌∷◌, arith, if◌then◌else◌, ◌==◌,
}
use indy_node.Auth.Action.{auth_action_add, auth_action_edit, get_action_id, split_action_id}
use indy_node.Auth.Constraint.{Constraint, forbidden}
use indy_node.Auth.Request.{Request}
use indy_node.Auth.Role.{trustee}
use indy_node.Auth.Strategy.{
  local_auth_constraint, find_auth_constraint_key, is_accepted_action_id, accepts_parts,
}
use indy_node.Auth.Validator as V
use indy_node.Auth.Validator.{get_auth_constraint}
use indy_node.Auth.Authorizer.{
  authorize, authorize_role, get_sig_count, is_role_accepted, authorize_endorser,
  check_endorser_role, check_endorser_field_presence,
}
use indy_node.Auth.Verdict.{run_authorizers}
use indy_node.Revocation.Handler.{
  validate_entry, update_entry, use_legacy_sort, author_of, entry_action, get_revocation_strategy,
  current_entry, passed,
}
use indy_node.Revocation.Handler.Guarded.{authorise, entry_guarded}
use indy_node.Revocation.Sets.{elem, add, update, set_of, difference, intersection, insert, sort}
use indy_node.Revocation.Sets.Members.{elem-update, elem-difference}
use indy_node.Revocation.Strategy.{
  RevocEntry, Strategy, issued_strategy, Txn, valid, invalid, already_issued, specific_validation,
  validate_next, validate, result_indices, next_value, changed_entry, write, set_to_state,
  prepare_for_state, get_delta, make_state_path_for_revoc_reg_entry,
  make_state_path_for_revoc_reg_entry_accum,
}
use indy_node.Revocation.Strategy.Status.{is_issued, after, Disjoint}
use indy_node.Revocation.Strategy.Accepts.{ValidEntry}
use indy_node.Revocation.Strategy.Effect.{ListsMembers}
use indy_node.Revocation.Strategy.History.{Run, still, step, replay, is_issued-Run}

program : Unit {0}
unfolding elem add update set_of difference intersection insert sort specific_validation
    validate_next validate result_indices next_value changed_entry write set_to_state
    prepare_for_state get_delta make_state_path_for_revoc_reg_entry
    make_state_path_for_revoc_reg_entry_accum is_issued after validate_entry update_entry
    use_legacy_sort author_of entry_action V.validate get_auth_constraint local_auth_constraint
    find_auth_constraint_key is_accepted_action_id accepts_parts auth_action_add auth_action_edit
    get_action_id split_action_id authorize run_authorizers authorize_role get_sig_count
    is_role_accepted authorize_endorser check_endorser_role check_endorser_field_presence
program = tt

-- Members in the order in which they were added.
abbrev unsorted : List ℕ → List ℕ → List ℕ → List ℕ
unsorted indices removed added = update (difference indices removed) added

unsorted-ListsMembers : ListsMembers unsorted
unsorted-ListsMembers i indices removed added =
    ground
      (arith, elem-update i (difference indices removed) added, elem-difference i indices removed)

abbrev entry : List ℕ → List ℕ → Option String → String → RevocEntry
entry issued revoked prev accum = record {
  revoc_reg_def_id = "reg";
  revoc_def_type = "CL_ACCUM";
  value = record {
    issued = some issued;
    revoked = some revoked;
    accum = some accum;
    prev_accum = prev;
  };
}

abbrev first : RevocEntry
first = entry (5 ∷ 2 ∷ []) [] none "a"

abbrev second : RevocEntry
second = entry (3 ∷ 1 ∷ []) (2 ∷ []) (some "a") "b"

second_valid : validate issued_strategy (some first) second ≡ valid
unfolding program
second_valid = refl

second_stored :
    changed_entry unsorted false issued_strategy (some first) second
    ≡ entry (1 ∷ 3 ∷ 5 ∷ []) [] (some "a") "b"
unfolding program
second_stored = refl

repeated_refused :
    validate issued_strategy (some first) (entry (2 ∷ []) [] (some "a") "b")
    ≡ invalid (already_issued (2 ∷ []) (5 ∷ 2 ∷ []))
unfolding program
repeated_refused = refl

second-Disjoint : Disjoint second
unfolding elem
second-Disjoint i h = ground (arith, h)

elem_swap : (i : ℕ) → elem i (5 ∷ 2 ∷ []) ≡ elem i (2 ∷ 5 ∷ 2 ∷ [])
unfolding elem
elem_swap i = ground arith

one_step :
    Run unsorted unsorted-ListsMembers false issued_strategy first
      (second ∷ [])
      (changed_entry unsorted false issued_strategy (some first) second)
one_step = step second still second_valid

is_issued-Run_example :
    is_issued issued_strategy (changed_entry unsorted false issued_strategy (some first) second) 2
    ≡ replay unsorted unsorted-ListsMembers false issued_strategy
        (second ∷ [])
        (is_issued issued_strategy first)
        2
is_issued-Run_example =
    is_issued-Run unsorted unsorted-ListsMembers false issued_strategy one_step 2

abbrev txn : Txn
txn = record { author_did = "did"; entry = second; seq_no = 7; txn_time = 100 }

abbrev trustees : String → Option String
trustees did = if did == "did" then some trustee else none

abbrev nothing_there : String → Option String
nothing_there s = none

abbrev deserialized : String → Constraint
deserialized s = forbidden

abbrev by_owner : Request
by_owner = record {
  identifier = "did";
  req_id = 1;
  signature = some "sig";
  signatures = [];
  endorser = none;
}

abbrev third : RevocEntry
third = record {
  revoc_reg_def_id = "did:4:x";
  revoc_def_type = "CL_ACCUM";
  value = record { issued = some (4 ∷ []); revoked = none; accum = some "c"; prev_accum = none };
}

abbrev on_demand : String → Option String
on_demand path = some "ISSUANCE_ON_DEMAND"

third_passes :
    validate_entry on_demand
      (authorise trustees nothing_there deserialized by_owner)
      []
      by_owner
      third
    ≡ passed
unfolding program
third_passes = refl

entry_guarded_example :
    (author_of third.revoc_reg_def_id ≡ by_owner.identifier)
    × ((typ : String) × (s : Strategy) × (on_demand third.revoc_reg_def_id ≡ some typ)
        × (get_revocation_strategy typ ≡ some s)
        × ValidEntry s (current_entry [] third.revoc_reg_def_id) third)
entry_guarded_example =
    entry_guarded trustees nothing_there deserialized by_owner on_demand [] third third_passes

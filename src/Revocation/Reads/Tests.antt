-- ===== src/Revocation/Reads/Tests.antt =====
-- Reads of a registry with two entries, and the theorem there.
use indy_node.Base.{
  ℕ, String, Option, none, some, List, [], ◌∷◌, get, ltb, ◌==◌, if◌then◌else◌, ◌≡◌, refl,
}
use indy_node.Revocation.Sets.{elem, add, update, set_of, difference}
use indy_node.Revocation.Strategy.{
  RevocEntry, Stored, get_delta, make_state_path_for_revoc_reg_entry,
  make_state_path_for_revoc_reg_entry_accum, only_accum,
}
use indy_node.Revocation.Strategy.Status.{is_issued}
use indy_node.Revocation.Reads.{
  Definition, DeltaRequest, Reply, changes, Result, passed, from_after_to, static_validation,
  read_at, make_delta, find_delta, answer_at, get_delta_result, get_reg_result,
}

program : Unit {0}
unfolding elem add update set_of difference get_delta make_state_path_for_revoc_reg_entry
    make_state_path_for_revoc_reg_entry_accum is_issued static_validation read_at make_delta
    find_delta answer_at get_delta_result get_reg_result
program = tt

abbrev entry_with : List ℕ → String → RevocEntry
entry_with issued accum = record {
  revoc_reg_def_id = "reg";
  revoc_def_type = "CL_ACCUM";
  value = record { issued = some issued; revoked = some []; accum = some accum; prev_accum = none };
}

abbrev early_entry : RevocEntry
early_entry = entry_with (1 ∷ 2 ∷ []) "a"

abbrev late_entry : RevocEntry
late_entry = entry_with (2 ∷ 3 ∷ []) "b"

abbrev accum_of : RevocEntry → RevocEntry
accum_of e = record e { value = only_accum e.value }

abbrev past_root : ℕ → Option String
past_root t = if ltb t 10 then none else if ltb t 100 then some "early" else some "late"

abbrev written : RevocEntry → ℕ → Stored
written e n = record { entry = e; seq_no = n; txn_time = 10 }

abbrev state_of : String → List (String × Stored)
state_of root =
    if root == "early"
    then ("5:reg", written early_entry 1) ∷ ("6:reg", written (accum_of early_entry) 1) ∷ []
    else ("5:reg", written late_entry 2) ∷ ("6:reg", written (accum_of late_entry) 2) ∷ []

abbrev stored_at : String → String → Option Stored
stored_at root path = get path (state_of root)

abbrev proof_at : String → String → Option String
proof_at root path = some "proof"

abbrev on_demand : Definition
on_demand = record { issuance_type = "ISSUANCE_ON_DEMAND"; revoc_type = some "CL_ACCUM" }

abbrev definition_at : String → String → Option Definition
definition_at root id = some on_demand

abbrev both_times : DeltaRequest
both_times = record { from = some 50; to = some 150; revoc_reg_def_id = "reg" }

both_times_valid : static_validation both_times ≡ passed
unfolding program
both_times_valid = refl

swapped_invalid : static_validation (record both_times { from = some 200 }) ≡ from_after_to
unfolding program
swapped_invalid = refl

abbrev issued_in : Option (Result Reply) → List ℕ × List ℕ
issued_in none = ([], [])
issued_in (some r) = elim r.data_of [ changes d ↦ (d.issued, d.revoked) | _ ↦ ([], []) ]

both_times_lists :
    issued_in (get_delta_result past_root stored_at proof_at definition_at both_times)
    ≡ (3 ∷ [], 1 ∷ [])
unfolding program
both_times_lists = refl

-- ===== src/Revocation/Strategy.antt =====
-- `RevokedStrategy` and `IssuedStrategy` of indy_node/server/revocation_strategy.py. The former
-- keeps the revoked indices in the state, the latter the issued ones.
pub mod Status
pub mod Validity
pub mod Accepts
pub mod Effect
pub mod History
pub mod Writes
pub mod Delta
pub mod Compat
use Prim.Native.String as Text
use indy_node.Base.{
  ℕ, String, Option, none, some, Bool, true, false, not, ◌&&◌, ◌||◌, List, [], ◌∷◌, put, opt_eq,
  is_none, ltb, length, num_eq, ◌==◌, if◌then◌else◌,
}
use indy_node.Revocation.Sets.{set_of, difference, intersection, update, sort}

-- The VALUE of an entry. An index list that is absent counts as empty.
pub record RevocValue : Type 0 where
  pub issued : Option (List ℕ)
  pub revoked : Option (List ℕ)
  pub accum : Option String
  pub prev_accum : Option String

pub record RevocEntry : Type 0 where
  pub revoc_reg_def_id : String
  pub revoc_def_type : String
  pub value : RevocValue

abbrev pub get_list : Option (List ℕ) → List ℕ
get_list none = []
get_list (some l) = l

abbrev pub issued_of : RevocEntry → List ℕ
issued_of e = get_list e.value.issued

abbrev pub revoked_of : RevocEntry → List ℕ
revoked_of e = get_list e.value.revoked

pub data Strategy : Type 0 where
  revoked_strategy issued_strategy : Strategy

-- InvalidClientRequest, with what the message shows.
pub data Invalid : Type 0 where
  in_both_lists : Invalid
  no_previous_entry : Option String → Invalid
  accum_mismatch : (current shown : Option String) → Invalid
  lists_are_empty : Invalid
  accum_unchanged : Invalid
  issued_not_revoked : (issued_difference indices : List ℕ) → Invalid
  already_revoked : (revoked_intersection indices : List ℕ) → Invalid
  revoked_not_issued : (revoked_difference indices : List ℕ) → Invalid
  already_issued : (issued_intersection indices : List ℕ) → Invalid

pub data Check : Type 0 where
  valid : Check
  invalid : Invalid → Check

-- `len(xs) > 0`
abbrev pub some_in : List ℕ → Bool
some_in xs = ltb 0 (length xs)

-- `specific_validation`: RevokedStrategy, then IssuedStrategy. The VALUE of an entry in the state
-- holds its accumulator, so the assertion that it is not empty passes.
unfoldable pub specific_validation : Strategy → RevocEntry → RevocEntry → Check
specific_validation revoked_strategy current txn =
    let indices = revoked_of current in
    let issued_difference = difference (set_of (issued_of txn)) indices in
    let revoked_intersection = intersection (set_of indices) (revoked_of txn) in
    if some_in issued_difference
    then invalid (issued_not_revoked issued_difference indices)
    else if some_in revoked_intersection
    then invalid (already_revoked revoked_intersection indices)
    else valid
specific_validation issued_strategy current txn =
    let indices = issued_of current in
    let revoked_difference = difference (set_of (revoked_of txn)) indices in
    let issued_intersection = intersection (set_of indices) (issued_of txn) in
    if some_in revoked_difference
    then invalid (revoked_not_issued revoked_difference indices)
    else if some_in issued_intersection
    then invalid (already_issued issued_intersection indices)
    else valid

-- The part of `validate` for a registry that has an entry.
unfoldable pub validate_next : Strategy → RevocEntry → RevocEntry → Check
validate_next strategy current txn =
    let prev_accum = txn.value.prev_accum in
    let listed = some_in (issued_of txn) || some_in (revoked_of txn) in
    if not (opt_eq current.value.accum prev_accum)
    then invalid (accum_mismatch current.value.accum current.value.prev_accum)
    else if not listed
    then invalid lists_are_empty
    else if opt_eq prev_accum txn.value.accum && listed
    then invalid accum_unchanged
    else specific_validation strategy current txn

-- `RevocationStrategy.validate`
unfoldable pub validate : Strategy → Option RevocEntry → RevocEntry → Check
validate strategy current_entry txn =
    if some_in (intersection (set_of (issued_of txn)) (set_of (revoked_of txn)))
    then invalid in_both_lists
    else if not (is_none txn.value.prev_accum) && is_none current_entry
    then invalid (no_previous_entry txn.value.prev_accum)
    else elim current_entry [ none ↦ valid | some current ↦ validate_next strategy current txn ]

-- A transaction as the ledger holds it.
pub record Txn : Type 0 where
  pub author_did : String
  pub entry : RevocEntry
  pub seq_no : ℕ
  pub txn_time : ℕ

-- What the state holds under a path: the entry, with the number and the time that
-- `encode_state_value` puts beside it.
pub record Stored : Type 0 where
  pub entry : RevocEntry
  pub seq_no : ℕ
  pub txn_time : ℕ

abbrev pub State : Type 0
State = List (String × Stored)

unfoldable pub make_state_path_for_revoc_reg_entry : String → String
make_state_path_for_revoc_reg_entry revoc_reg_def_id = Text.◌++◌ "5:" revoc_reg_def_id

unfoldable pub make_state_path_for_revoc_reg_entry_accum : String → String
make_state_path_for_revoc_reg_entry_accum revoc_reg_def_id = Text.◌++◌ "6:" revoc_reg_def_id

-- The four assertions before an entry is written; `none` is AssertionError.
unfoldable pub prepare_for_state : Txn → Option Stored
prepare_for_state txn =
    if txn.author_did == ""
      || (txn.entry.revoc_reg_def_id == "" || (num_eq txn.seq_no 0 || num_eq txn.txn_time 0))
    then none
    else some (record { entry = txn.entry; seq_no = txn.seq_no; txn_time = txn.txn_time })

-- `txn_data[VALUE] = {ACCUM: txn_data[VALUE][ACCUM]}`
abbrev pub only_accum : RevocValue → RevocValue
only_accum v = record { issued = none; revoked = none; accum = v.accum; prev_accum = none }

-- `set_to_state`: the entry, then its accumulator alone under the other path.
unfoldable pub set_to_state : State → Txn → Option State
set_to_state state txn =
    let path = make_state_path_for_revoc_reg_entry txn.entry.revoc_reg_def_id in
    let accum_path = make_state_path_for_revoc_reg_entry_accum txn.entry.revoc_reg_def_id in
    elim (prepare_for_state txn) [
      | none ↦ none
      | some stored ↦ some (
          put accum_path
            (record stored {
              entry = record (stored.entry) { value = only_accum stored.entry.value };
            })
            (put path stored state))
    ]

-- `legacy i r a` is the order in which CompatSet lists `CompatSet(i).difference(r)` after
-- `update(a)`; `sort_legacy` selects it.
module _ (legacy : List ℕ → List ℕ → List ℕ → List ℕ) (sort_legacy : Bool) where
  unfoldable pub result_indices : List ℕ → List ℕ → List ℕ → List ℕ
  result_indices indices removed added =
      if sort_legacy
      then legacy indices removed added
      else sort (update (difference (set_of indices) removed) added)

  -- The new VALUE, where the registry has an entry: RevokedStrategy, then IssuedStrategy.
  unfoldable pub next_value : Strategy → RevocEntry → RevocValue → RevocValue
  next_value revoked_strategy current v = record v {
    issued = some [];
    revoked = some (result_indices (revoked_of current) (get_list v.issued) (get_list v.revoked));
  }
  next_value issued_strategy current v = record v {
    revoked = some [];
    issued = some (result_indices (issued_of current) (get_list v.revoked) (get_list v.issued));
  }

  -- The transaction that `write` hands to `set_to_state`.
  unfoldable pub changed_entry : Strategy → Option RevocEntry → RevocEntry → RevocEntry
  changed_entry strategy none e = e
  changed_entry strategy (some current) e = record e { value = next_value strategy current e.value }

  unfoldable pub write : Strategy → State → Option RevocEntry → Txn → Option State
  write strategy state current_entry txn =
      set_to_state state (record txn { entry = changed_entry strategy current_entry txn.entry })

-- `get_delta(to_dict, from_dict)`, as the pair of issued and revoked indices.
unfoldable pub get_delta : Strategy → RevocEntry → Option RevocEntry → List ℕ × List ℕ
get_delta strategy to none = (issued_of to, revoked_of to)
get_delta revoked_strategy to (some from) = (
  difference (set_of (revoked_of from)) (set_of (revoked_of to)),
  difference (set_of (revoked_of to)) (set_of (revoked_of from)),
)
get_delta issued_strategy to (some from) = (
  difference (set_of (issued_of to)) (set_of (issued_of from)),
  difference (set_of (issued_of from)) (set_of (issued_of to)),
)

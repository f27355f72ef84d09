-- ===== src/Revocation/Reads.antt =====
-- get_revoc_reg_delta_handler.py and get_revoc_reg_handler.py under
-- indy_node/server/request_handlers/read_req_handlers: reads of a registry at a time.
pub mod Changes
mod Tests
use indy_node.Base.{
  ℕ, String, Option, none, some, Bool, true, false, not, ◌&&◌, ◌||◌, List, num_eq, ltb, is_none,
  ◌==◌, if◌then◌else◌,
}
use indy_node.Auth.Strategy.{◌>>=◌}
use indy_node.Revocation.Strategy.{
  RevocEntry, Strategy, Stored, make_state_path_for_revoc_reg_entry,
  make_state_path_for_revoc_reg_entry_accum, get_delta,
}
use indy_node.Revocation.Handler.{get_revocation_strategy}

-- `StateValue` of indy_node/server/request_handlers/utils.py; `none` is `None`.
pub record StateValue : Type 0 where
  pub root_hash : Option String
  pub value : Option RevocEntry
  pub seq_no : Option ℕ
  pub update_time : Option ℕ
  pub proof : Option String

abbrev pub no_value : StateValue
no_value = record {
  root_hash = none;
  value = none;
  seq_no = none;
  update_time = none;
  proof = none;
}

abbrev pub found_value : Option String → Option Stored → Option String → StateValue
found_value root none proof = record no_value { root_hash = root; proof = proof }
found_value root (some s) proof = record {
  root_hash = root;
  value = some (s.entry);
  seq_no = some (s.seq_no);
  update_time = some (s.txn_time);
  proof = proof;
}

-- What the handler reads of the definition of a registry.
pub record Definition : Type 0 where
  pub issuance_type : String
  pub revoc_type : Option String

-- The operation of GET_REVOC_REG_DELTA.
pub record DeltaRequest : Type 0 where
  pub from : Option ℕ
  pub to : Option ℕ
  pub revoc_reg_def_id : String

pub data DeltaCheck : Type 0 where
  passed assertion_failed from_after_to : DeltaCheck

-- `if timestamp`
abbrev pub is_given : Option ℕ → Bool
is_given none = false
is_given (some t) = not (num_eq t 0)

abbrev pub is_later : Option ℕ → Option ℕ → Bool
is_later (some t) (some u) = ltb u t
is_later _ _ = false

-- `static_validation`
unfoldable pub static_validation : DeltaRequest → DeltaCheck
static_validation r =
    if not (is_given r.to)
    then assertion_failed
    else if is_given r.from && is_later r.from r.to
    then from_after_to
    else passed

-- What is added to a reply where FROM is given: the proof and the accumulator there.
pub record FromPart : Type 0 where
  pub state_proof_from : Option String
  pub accum_from : Option RevocEntry

pub record Delta : Type 0 where
  pub revoc_reg_def_id : String
  pub revoc_type : Option String
  pub accum_to : Option RevocEntry
  pub issued : List ℕ
  pub revoked : List ℕ
  pub from_part : Option FromPart

-- The data of the reply: `None`, the changes, or the accumulator at FROM alone.
pub data Reply : Type 0 where
  no_data : Reply
  changes : Delta → Reply
  only_from : FromPart → Reply

-- The arguments of `make_result`.
pub record Result (D : Type 0) : Type 0 where
  pub data_of : D
  pub last_seq_no : Option ℕ
  pub update_time : Option ℕ
  pub proof : Option String

abbrev pub from_part_of : StateValue → FromPart
from_part_of v = record { state_proof_from = v.proof; accum_from = v.value }

abbrev pub either : Bool → StateValue → StateValue → StateValue
either true v w = v
either false v w = w

-- `past_root` is `ts_store.get_equal_or_prev`; `stored_at`, `proof_at` and `definition_at` read the
-- state with a root hash.
module _ (past_root : ℕ → Option String) (stored_at : String → String → Option Stored)
    (proof_at : String → String → Option String)
    (definition_at : String → String → Option Definition) where
  -- `_get_reg_entry_by_timestamp` and `_get_reg_entry_accum_by_timestamp`, which differ by the
  -- path.
  unfoldable pub read_at : ℕ → String → StateValue
  read_at timestamp path = elim (past_root timestamp) [
    | none ↦ no_value
    | some root ↦
        if root == ""
        then record no_value { root_hash = some root }
        else found_value (some root) (stored_at root path) (proof_at root path)
  ]

  abbrev pub entry_at : ℕ → String → StateValue
  entry_at timestamp id = read_at timestamp (make_state_path_for_revoc_reg_entry id)

  abbrev pub accum_at : ℕ → String → StateValue
  accum_at timestamp id = read_at timestamp (make_state_path_for_revoc_reg_entry_accum id)

  -- `entry_from` and `accum_from` of the first part: read where FROM is given.
  abbrev pub if_given : (ℕ → String → StateValue) → Option ℕ → String → StateValue
  if_given read none id = no_value
  if_given read (some t) id = if num_eq t 0 then no_value else read t id

  -- The entry that the delta starts from.
  abbrev pub earlier : StateValue → StateValue → Option RevocEntry
  earlier entry_from accum_from = if is_none accum_from.value then none else entry_from.value

  unfoldable pub make_delta :
      DeltaRequest
      → Strategy
      → Option String
      → (to : RevocEntry) → (entry_from accum_from accum_to : StateValue) → Delta
  make_delta r strategy revoc_type to entry_from accum_from accum_to =
      let (issued, revoked) = get_delta strategy to (earlier entry_from accum_from) in
      record {
        revoc_reg_def_id = r.revoc_reg_def_id;
        revoc_type = revoc_type;
        accum_to = if is_none entry_from.value then some to else accum_to.value;
        issued = issued;
        revoked = revoked;
        from_part = if is_given r.from then some (from_part_of accum_from) else none;
      }

  -- The definition that the state of `entry_to` has.
  abbrev pub definition_of : StateValue → String → Option Definition
  definition_of entry_to id = do root ← entry_to.root_hash; definition_at root id

  -- A reply with its `entry_from`. `none` is an exception: no strategy has the issuance type.
  abbrev pub known_delta :
      DeltaRequest
      → Option Definition
      → (to : RevocEntry) → (entry_from accum_from accum_to : StateValue)
      → Option (Option Delta × StateValue)
  known_delta r none to entry_from accum_from accum_to = some (none, no_value)
  known_delta r (some d) to entry_from accum_from accum_to =
      elim (get_revocation_strategy d.issuance_type) [
        | none ↦ none
        | some s ↦
            some (some (make_delta r s d.revoc_type to entry_from accum_from accum_to), entry_from)
      ]

  -- `if accum_to.value and entry_to.value`
  abbrev pub from_values :
      DeltaRequest → ℕ → (accum to : Option RevocEntry) → Option (Option Delta × StateValue)
  from_values r to_time (some accum) (some to) =
      let id = r.revoc_reg_def_id in
      known_delta r (definition_of (entry_at to_time id) id) to (if_given entry_at r.from id)
        (if_given accum_at r.from id) (accum_at to_time id)
  from_values r to_time _ _ = some (none, no_value)

  -- The first part of `get_result`.
  unfoldable pub find_delta : DeltaRequest → ℕ → Option (Option Delta × StateValue)
  find_delta r to_time =
      let id = r.revoc_reg_def_id in
      from_values r to_time (accum_at to_time id).value (entry_at to_time id).value

  abbrev pub reply_of : Option ℕ → String → Option Delta → Reply
  reply_of from id (some d) = changes d
  reply_of none id none = no_data
  reply_of (some t) id none = only_from (from_part_of (accum_at t id))

  -- `get_result` with the timestamp TO; `none` is an exception. A `StateValue` is always true.
  unfoldable pub answer_at : DeltaRequest → ℕ → Option (Result Reply)
  answer_at r to_time = do
    (delta, entry_from) ← find_delta r to_time
    let id = r.revoc_reg_def_id
    let v = either (is_none entry_from.value) (entry_at to_time id) (accum_at to_time id)
    some (record {
      data_of = reply_of r.from id delta;
      last_seq_no = v.seq_no;
      update_time = v.update_time;
      proof = v.proof;
    })

  -- The static validation refuses a request without TO.
  unfoldable pub get_delta_result : DeltaRequest → Option (Result Reply)
  get_delta_result r = do to_time ← r.to; answer_at r to_time

  -- `get_result` of GET_REVOC_REG: the accumulator at a time.
  unfoldable pub get_reg_result : ℕ → String → Result (Option RevocEntry)
  get_reg_result timestamp id =
      let path = make_state_path_for_revoc_reg_entry_accum id in
      let v : StateValue = elim (past_root timestamp) [
        | none ↦ no_value
        | some root ↦ elim (stored_at root path) [
          | none ↦ record no_value { proof = proof_at root path }
          | some s ↦ found_value (some root) (some s) (proof_at root path)
        ]
      ] in
      record {
        data_of = v.value;
        last_seq_no = v.seq_no;
        update_time = v.update_time;
        proof = v.proof;
      }

-- ===== src/Reads.antt =====
-- version_read_request_handler.py and get_nym_handler.py under
-- indy_node/server/request_handlers/read_req_handlers: reads of a state at a time, or at the time
-- of a transaction.
pub mod Attribute
pub mod Flags
pub mod Log
pub mod Written
pub mod Ordering
pub mod Errors
mod Tests
use indy_node.Base.{
  ℕ, String, Option, none, some, Bool, true, false, not, ◌&&◌, num_eq, is_none, ◌==◌, if◌then◌else◌,
}
use indy_node.Auth.Strategy.{◌>>=◌}
use indy_node.Identity.Writes.{NymDetails}

-- What a handler reads: `_get_value_from_state` on the last committed state, and on the state with
-- a root hash; the proofs that come with these; `get_equal_or_prev` of the timestamp store; and the
-- reply of the node for a sequence number, where it has a result, with the time of its transaction.
pub record Ledger (V : Type 0) : Type 0 where
  pub value_now : (path : String) → Option V
  pub value_at : (root path : String) → Option V
  pub proof_now : (path : String) → Option String
  pub proof_at : (root path : String) → Option String
  pub past_root : (timestamp : ℕ) → Option String
  pub result_at : (seq_no : ℕ) → Option (Option ℕ)

-- A value with its proof, or ValueError.
pub data Lookup (V : Type 0) : Type 0 where
  looked : Option V → (proof : Option String) → Lookup V
  value_error : Lookup V

-- `if timestamp`
abbrev pub is_given : Option ℕ → Bool
is_given none = false
is_given (some t) = not (num_eq t 0)

abbrev pub if_proof : Bool → Option String → Option String
if_proof true p = p
if_proof false p = none

module _ {V : Type 0} (ledger : Ledger V) where
  -- `_timestamp_from_seq_no`
  unfoldable pub timestamp_from_seq_no : ℕ → Option ℕ
  timestamp_from_seq_no seq_no = do time ← ledger.result_at seq_no; time

  -- `if past_root`
  abbrev pub at_root : (path : String) → Bool → Option String → Lookup V
  at_root path with_proof none = looked none none
  at_root path with_proof (some root) =
      if root == ""
      then looked none none
      else looked (ledger.value_at root path) (if_proof with_proof (ledger.proof_at root path))

  -- The last part, with the timestamp that is left.
  abbrev pub at_time : (path : String) → Bool → Option ℕ → Lookup V
  at_time path with_proof none =
      looked (ledger.value_now path) (if_proof with_proof (ledger.proof_now path))
  at_time path with_proof (some t) =
      if num_eq t 0
      then looked (ledger.value_now path) (if_proof with_proof (ledger.proof_now path))
      else at_root path with_proof (ledger.past_root t)

  abbrev pub at_seq_no : (path : String) → Bool → ℕ → Lookup V
  at_seq_no path with_proof seq_no =
      let t = timestamp_from_seq_no seq_no in
      if is_given t then at_time path with_proof t else looked none none

  unfoldable pub lookup_version :
      (path : String) → (seq_no timestamp : Option ℕ) → (with_proof : Bool) → Lookup V
  lookup_version path none timestamp with_proof = at_time path with_proof timestamp
  lookup_version path (some n) (some t) with_proof = value_error
  lookup_version path (some n) none with_proof =
      if num_eq n 0 then at_time path with_proof none else at_seq_no path with_proof n

-- The arguments of `make_result`, or an exception: InvalidClientRequest for what the handler names,
-- or ValueError.
pub data Answer (D : Type 0) : Type 0 where
  result :
      (data_of : Option D)
      → (last_seq_no update_time : Option ℕ) → (proof : Option String) → Answer D
  both_versions bad_keys no_name : Answer D
  value_error : Answer D

-- The fields of an operation that select a version.
pub record Version : Type 0 where
  pub timestamp : Option ℕ
  pub seq_no : Option ℕ

-- `if timestamp and seq_no`
abbrev pub both_given : Version → Bool
both_given v = is_given v.timestamp && is_given v.seq_no

-- The data of GET_NYM: the dictionary of the state with the DID.
pub record NymReply : Type 0 where
  pub details : NymDetails
  pub dest : String

abbrev pub nym_answer : (dest : String) → Lookup NymDetails → Answer NymReply
nym_answer dest (looked none proof) = result none none none proof
nym_answer dest (looked (some d) proof) =
    result (some (record { details = d; dest = dest })) d.seq_no d.txn_time proof
nym_answer dest Lookup.value_error = value_error

-- `get_result` of GET_NYM. The operation that is added to the result is left out.
unfoldable pub get_nym_result :
    (state_key : String → String) → Ledger NymDetails → (dest : String) → Version → Answer NymReply
get_nym_result state_key ledger dest v =
    if both_given v
    then both_versions
    else nym_answer dest (lookup_version ledger (state_key dest) v.seq_no v.timestamp true)

-- ===== src/Reads/Flags.antt =====
-- flag_handler.py under indy_node/server/request_handlers/config_req_handlers, and
-- get_flag_handler.py under read_req_handlers beside it: flags of the config ledger.
use Prim.Native.String.{◌++◌}
use indy_node.Base.{
  ℕ, String, Option, none, some, Bool, true, false, not, List, [], ◌∷◌, put, if◌then◌else◌,
}
use indy_node.Base.Json.{Json}
use indy_node.Auth.Txn
use indy_node.Auth.Action.{Action, auth_action_edit}
use indy_node.Auth.Request.{Request}
use indy_node.Auth.Validator.{Validation}
use indy_node.Identity.Diddoc.{is_true}
use indy_node.Reads.{
  Ledger, Lookup, looked, Answer, result, both_versions, value_error, Version, both_given,
  lookup_version,
}

-- The operation of FLAG; `none` is a key that is not there.
pub record FlagOp : Type 0 where
  pub name : Option Json
  pub flag_value : Option Json

pub data FlagCheck : Type 0 where
  passed no_name name_no_text value_no_text : FlagCheck

abbrev pub is_text : Json → Bool
is_text (Json.str s) = true
is_text _ = false

-- `isinstance(value, str) or value is None`
abbrev pub text_or_none : Option Json → Bool
text_or_none none = true
text_or_none (some Json.null) = true
text_or_none (some j) = is_text j

-- `static_validation`
unfoldable pub check_flag : FlagOp → FlagCheck
check_flag op = elim op.name [
  | none ↦ FlagCheck.no_name
  | some j ↦
      if not (is_true j)
      then FlagCheck.no_name
      else if not (is_text j)
      then name_no_text
      else if text_or_none op.flag_value
      then passed
      else value_no_text
]

-- `additional_dynamic_validation`
unfoldable pub validate_flag : (Request → List Action → Validation) → Request → Validation
validate_flag authorise request =
    authorise request (auth_action_edit Txn.flag none none none true ∷ [])

unfoldable pub make_state_path_for_flag : String → String
make_state_path_for_flag key = "2" ++ (":" ++ key)

-- What the config state holds of a flag.
pub record FlagState : Type 0 where
  pub flag_value : Option String
  pub last_seq_no : ℕ
  pub last_update_time : ℕ

-- A transaction of a flag that passed the static validation.
pub record FlagTxn : Type 0 where
  pub name : String
  pub flag_value : Option String
  pub seq_no : ℕ
  pub txn_time : ℕ

-- `update_state`
unfoldable pub update_flag : List (String × FlagState) → FlagTxn → List (String × FlagState)
update_flag state txn =
    put (make_state_path_for_flag txn.name)
      (record {
        flag_value = txn.flag_value;
        last_seq_no = txn.seq_no;
        last_update_time = txn.txn_time;
      })
      state

-- `get_state_value`
abbrev pub get_state_value : Option FlagState → Option String
get_state_value none = none
get_state_value (some s) = s.flag_value

abbrev pub flag_answer : Lookup FlagState → Answer FlagState
flag_answer (looked none proof) = result none none none proof
flag_answer (looked (some s) proof) =
    result (some s) (some (s.last_seq_no)) (some (s.last_update_time)) proof
flag_answer Lookup.value_error = value_error

module _ (ledger : Ledger FlagState) where
  -- `get_result` of GET_FLAG, for the name of a flag, where there is one
  unfoldable pub get_flag_result : Option String → Version → Answer FlagState
  get_flag_result none v = Answer.no_name
  get_flag_result (some key) v =
      if both_given v
      then both_versions
      else flag_answer
          (lookup_version ledger (make_state_path_for_flag key) v.seq_no v.timestamp true)

  -- `lookup_key`; `none` outside is ValueError.
  unfoldable pub lookup_key : String → (seq_no timestamp : Option ℕ) → Option (Option FlagState)
  lookup_key flag seq_no timestamp =
      elim (lookup_version ledger (make_state_path_for_flag flag) seq_no timestamp false) [
        | looked value proof ↦ some value
        | Lookup.value_error ↦ none
      ]

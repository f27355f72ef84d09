-- ===== src/Identity/Writes.antt =====
-- What NYM transactions write: `update_state` of nym_handler.py and idr_cache_nym_handler.py under
-- indy_node/server/request_handlers/domain_req_handlers.
pub mod Coherence
pub mod History
use Prim.Native.String as Text
use Prim.Native.Char.{Char, code}
use indy_node.Base.{
  ℕ, zero, suc, String, Option, none, some, Bool, true, false, not, ◌&&◌, ◌||◌, List, [], ◌∷◌,
  num_eq, leb, truthy, opt_eq, is_none, get, put, if◌then◌else◌, ◌==◌,
}
use indy_node.Base.Json.{Json}
use indy_node.Auth.Role.{trustee, steward, endorser, network_monitor}
use indy_node.Auth.Txn.{nym}
use indy_node.Auth.Action.{Action, text, as_value, auth_action_add, auth_action_edit}
use indy_node.Auth.Request.{Request}
use indy_node.Auth.Validator.{Validation, authorised, no_action}
use indy_node.Identity.Cache.{Backend, NymData, owner_of, cache_set}
use indy_node.Identity.Diddoc.{
  DocCheck, doc_valid, has_id, has_fragment, attribute_error, validate_diddoc_content,
}
use indy_node.Identity.Nym.{NymOperation}

-- The dictionary in the state.
pub record NymDetails : Type 0 where
  pub identifier : Option String
  pub role : Option String
  pub verkey : Option String
  pub diddoc_content : Option String
  pub version : Option ℕ
  pub seq_no : Option ℕ
  pub txn_time : Option ℕ

pub record NymTxn : Type 0 where
  pub nym : String
  pub author : Option String
  pub payload : NymOperation
  pub seq_no : Option ℕ
  pub txn_time : Option ℕ

-- `new_data[key] = txn_data[key]` where the key is there
abbrev pub override {ℓ} : {A : Type ℓ} → Option (Option A) → Option A → Option A
override none old = old
override (some v) old = v

abbrev pub override_version : Option ℕ → Option ℕ → Option ℕ
override_version none old = old
override_version (some v) old = some v

abbrev pub existing_or_new : NymTxn → Option NymDetails → NymDetails
existing_or_new txn (some d) = d
existing_or_new txn none = record {
  identifier = txn.author;
  role = none;
  verkey = none;
  diddoc_content = none;
  version = none;
  seq_no = none;
  txn_time = none;
}

unfoldable pub updated : NymTxn → Option NymDetails → NymDetails
updated txn existing =
    let old = existing_or_new txn existing in
    record {
      identifier = old.identifier;
      role = override txn.payload.role old.role;
      verkey = override txn.payload.verkey old.verkey;
      diddoc_content = override txn.payload.diddoc_content old.diddoc_content;
      version = override_version txn.payload.version old.version;
      seq_no = txn.seq_no;
      txn_time = txn.txn_time;
    }

abbrev pub NymState : Type 0
NymState = List (String × NymDetails)

-- `update_state` of NymHandler; `state_key` is `nym_to_state_key`.
unfoldable pub update_state :
    (state_key : String → String) → NymState → NymTxn → NymDetails × NymState
update_state state_key state txn =
    let existing_data = updated txn (get (state_key txn.nym) state) in
    (existing_data, put (state_key txn.nym) existing_data state)

-- `update_state` of IdrCacheNymHandler, on what the former returns
unfoldable pub update_cache : (b : Backend) → b.Store → NymTxn → NymDetails → Bool → Option b.Store
update_cache b s txn prev_result is_committed =
    cache_set b s txn.nym txn.seq_no txn.txn_time prev_result.identifier prev_result.role
      prev_result.verkey is_committed

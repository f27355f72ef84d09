-- ===== src/Domain/Definitions.antt =====
-- schema_handler.py, claim_def_handler.py and revoc_reg_def_handler.py under
-- indy_node/server/request_handlers/domain_req_handlers, with what they use of
-- indy_common/state/domain.py and indy_common/req_utils.py.
pub mod Kept
use indy_node.Base.{
  ℕ, suc, String, Option, none, some, Bool, true, false, not, ◌&&◌, ◌||◌, List, [], ◌∷◌, num_eq,
  ◌==◌, get, put, if◌then◌else◌, ◌≡◌, refl,
}
use indy_node.Base.Json as Json
use indy_node.Base.Json.{Json}
use indy_node.Base.Decimal.{str_of}
use indy_node.Auth.Txn
use indy_node.Auth.Action.{Action, text, auth_action_add, auth_action_edit}
use indy_node.Auth.Request.{Request}
use indy_node.Auth.Validator.{Validation, authorised}
use indy_node.Identity.Diddoc.{is_true}
use indy_node.Domain.Paths.{
  make_state_path_for_schema, make_state_path_for_claim_def, make_state_path_for_revoc_def,
}
use indy_node.Domain.Paths.Colons.{colons}

-- The dictionary of `encode_state_value`.
pub record StateValue : Type 0 where
  pub val : Json
  pub lsn : ℕ
  pub lut : ℕ

-- The domain state: what it holds under each path.
abbrev pub DomainState : Type 0
DomainState = List (String × StateValue)

-- What the handlers read of a transaction with the payload `D`.
pub record DomainTxn (D : Type 0) : Type 0 where
  pub from : String
  pub content : D
  pub seq_no : ℕ
  pub txn_time : ℕ

abbrev pub encode_state_value : Json → ℕ → ℕ → StateValue
encode_state_value value seq_no txn_time = record { val = value; lsn = seq_no; lut = txn_time }

-- `get_from_state(path)[0]`
abbrev pub value_at : DomainState → String → Option Json
value_at state path = elim (get path state) [ none ↦ none | some v ↦ some (v.val) ]

-- `if value:`
abbrev pub is_there : Option Json → Bool
is_there none = false
is_there (some j) = is_true j

pub data DefCheck : Type 0 where
  passed : DefCheck
  denied : Validation → DefCheck
  no_such_txn not_a_schema bad_cred_def_id no_cred_def assertion_failed : DefCheck

abbrev pub checked : Validation → DefCheck
checked authorised = passed
checked refusal = denied refusal

-- `AuthActionEdit` where the state has a value, else `AuthActionAdd`, for every field and value.
unfoldable pub whole_action : String → (exists : Bool) → Action
whole_action txn_type true =
    auth_action_edit txn_type (some (text "*")) (some (text "*")) (some (text "*")) true
whole_action txn_type false = auth_action_add txn_type (some (text "*")) (some (text "*")) true

-- Schemas.
pub record SchemaData : Type 0 where
  pub name : String
  pub version : String
  pub attr_names : Json

abbrev pub schema_value : SchemaData → Json
schema_value d = Json.obj (Json.field "attr_names" d.attr_names Json.end)

-- `prepare_schema_for_state`
unfoldable pub prepare_schema_for_state : DomainTxn SchemaData → String × StateValue
prepare_schema_for_state txn = (
  make_state_path_for_schema txn.from txn.content.name txn.content.version,
  encode_state_value (schema_value txn.content) txn.seq_no txn.txn_time,
)

unfoldable pub update_schema : DomainState → DomainTxn SchemaData → DomainState
update_schema state txn = let (path, value) = prepare_schema_for_state txn in put path value state

-- Claim definitions. `none` is a key that is not there, or has the value `None` where there is no
-- default.
pub record ClaimDefData : Type 0 where
  pub schema_ref : Option ℕ
  pub signature_type : Option String
  pub tag : Option String
  pub public_keys : Option Json

abbrev pub or_default : Option String → String → String
or_default none d = d
or_default (some s) d = s

abbrev pub claim_def_path : String → ℕ → ClaimDefData → String
claim_def_path did ref d =
    make_state_path_for_claim_def did (str_of ref) (or_default d.signature_type "CL")
      (or_default d.tag "tag")

-- `prepare_claim_def_for_state`; `none` is ValueError.
unfoldable pub prepare_claim_def_for_state : DomainTxn ClaimDefData → Option (String × StateValue)
prepare_claim_def_for_state txn = elim txn.content.schema_ref [
  | none ↦ none
  | some ref ↦ elim txn.content.public_keys [
    | none ↦ none
    | some keys ↦
        some
          (claim_def_path txn.from ref txn.content, encode_state_value keys txn.seq_no txn.txn_time)
  ]
]

-- `self.state.set(path, value_bytes)`, when both are made
abbrev pub store : DomainState → Option (String × StateValue) → Option DomainState
store state none = none
store state (some (path, value)) = some (put path value state)

unfoldable pub update_claim_def : DomainState → DomainTxn ClaimDefData → Option DomainState
update_claim_def state txn = store state (prepare_claim_def_for_state txn)

-- Definitions of revocation registries, with the whole payload as it is stored.
pub record RevocDefData : Type 0 where
  pub cred_def_id : String
  pub revoc_def_type : String
  pub revoc_def_tag : String
  pub whole : Json

abbrev pub is_blank : String → Bool
is_blank s = s == ""

-- The assertions on the identifiers.
abbrev pub names_given : RevocDefData → Bool
names_given d =
    not (is_blank d.cred_def_id)
    && (not (is_blank d.revoc_def_type) && not (is_blank d.revoc_def_tag))

abbrev pub revoc_def_path : String → RevocDefData → String
revoc_def_path did d =
    make_state_path_for_revoc_def did d.cred_def_id d.revoc_def_type d.revoc_def_tag

-- `prepare_revoc_def_for_state`; `none` is AssertionError.
unfoldable pub prepare_revoc_def_for_state : DomainTxn RevocDefData → Option (String × StateValue)
prepare_revoc_def_for_state txn =
    if not (is_blank txn.from)
      && (names_given txn.content && (not (num_eq txn.seq_no 0) && not (num_eq txn.txn_time 0)))
    then some (
      revoc_def_path txn.from txn.content,
      encode_state_value txn.content.whole txn.seq_no txn.txn_time,
    )
    else none

unfoldable pub update_revoc_def : DomainState → DomainTxn RevocDefData → Option DomainState
update_revoc_def state txn = store state (prepare_revoc_def_for_state txn)

-- `static_validation` of a definition: the id of the claim definition has four or five parts.
unfoldable pub static_validation : RevocDefData → DefCheck
static_validation d =
    let parts = suc (colons d.cred_def_id) in
    if num_eq parts 4 || num_eq parts 5 then passed else bad_cred_def_id

-- `authorise` is the request validator, and `type_at` gives the type of the transaction with a
-- number, where the ledger has it.
module _ (authorise : Request → List Action → Validation) (type_at : ℕ → Option String) where
  -- `additional_dynamic_validation` of a schema
  unfoldable pub validate_schema : DomainState → Request → SchemaData → DefCheck
  validate_schema state request d =
      let path = make_state_path_for_schema request.identifier d.name d.version in
      checked (authorise request (whole_action Txn.schema (is_there (value_at state path)) ∷ []))

  -- `additional_dynamic_validation` of a claim definition, whose reference is `ref`
  unfoldable pub validate_claim_def : DomainState → Request → ℕ → ClaimDefData → DefCheck
  validate_claim_def state request ref d = elim (type_at ref) [
    | none ↦ no_such_txn
    | some txn_type ↦
        if not (txn_type == Txn.schema)
        then not_a_schema
        else checked (
            authorise request (
              whole_action Txn.claim_def
                (is_there (value_at state (claim_def_path request.identifier ref d)))
              ∷ []))
  ]

  abbrev pub cred_def_check : DefCheck → Option Json → DefCheck
  cred_def_check passed none = no_cred_def
  cred_def_check check _ = check

  abbrev pub is_some : Option Json → Bool
  is_some none = false
  is_some (some j) = true

  -- `additional_dynamic_validation` of a definition
  unfoldable pub validate_revoc_def : DomainState → Request → RevocDefData → DefCheck
  validate_revoc_def state request d =
      if not (names_given d)
      then assertion_failed
      else cred_def_check
          (checked (
            authorise request (
              whole_action Txn.revoc_reg_def
                (is_some (value_at state (revoc_def_path request.identifier d)))
              ∷ [])))
          (value_at state d.cred_def_id)

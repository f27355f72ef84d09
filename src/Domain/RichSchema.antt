-- ===== src/Domain/RichSchema.antt =====
-- The handlers under indy_node/server/request_handlers/domain_req_handlers/rich_schema, but that of
-- contexts: abstract_rich_schema_object_handler.py, rich_schema_handler.py,
-- rich_schema_encoding_handler.py, rich_schema_cred_def_handler.py and
-- rich_schema_pres_def_handler.py. The handler of mappings is in the module Mapping.
mod Tests
pub mod Kept
pub mod References
pub mod Mapping
use Prim.Native.String.{◌++◌}
use indy_node.Base.{
  ℕ, String, Option, none, some, Bool, true, false, not, ◌&&◌, List, [], ◌∷◌, ◌==◌, get, put,
  is_none, if◌then◌else◌,
}
use indy_node.Base.Json as Json
use indy_node.Base.Json.{Json, item_of}
use indy_node.Auth.Txn
use indy_node.Auth.Action.{Action}
use indy_node.Auth.Request.{Request}
use indy_node.Auth.Validator.{Validation, authorised}
use indy_node.Identity.Diddoc.{is_true}
use indy_node.Domain.Definitions.{DomainTxn, StateValue, encode_state_value, whole_action}

-- The handlers.
pub data Kind : Type 0 where
  rich_schema encoding cred_def pres_def : Kind

abbrev pub txn_type : Kind → String
txn_type rich_schema = Txn.rich_schema
txn_type encoding = Txn.rich_schema_encoding
txn_type cred_def = Txn.rich_schema_cred_def
txn_type pres_def = Txn.rich_schema_pres_def

abbrev pub is_json_ld_content : Kind → Bool
is_json_ld_content rich_schema = true
is_json_ld_content pres_def = true
is_json_ld_content _ = false

pub record RichOp : Type 0 where
  pub rs_id : String
  pub rs_type : String
  pub rs_name : String
  pub rs_version : String
  pub content : String

-- What the domain state holds under a key: a value with its number and time, or the key of an
-- object.
pub data Entry : Type 0 where
  value : StateValue → Entry
  reference : String → Entry

abbrev pub RichState : Type 0
RichState = List (String × Entry)

-- `get_from_state(path)[0]`. What refers to an object is no value that `decode_state_value` reads.
pub data Lookup : Type 0 where
  nothing broken : Lookup
  found : Json → Lookup

abbrev pub get_from_state : RichState → String → Lookup
get_from_state state path = elim (get path state) [
  | none ↦ nothing
  | some (value v) ↦ found v.val
  | some (reference k) ↦ broken
]

pub data RichCheck : Type 0 where
  passed : RichCheck
  denied : Validation → RichCheck
  missing : List String → RichCheck
  cannot_find wrong_type : (field : String) → RichCheck
  disabled not_json no_json_ld id_differs name_taken bad_ranks crashed : RichCheck

abbrev pub and_then : RichCheck → RichCheck → RichCheck
and_then passed c = c
and_then refusal c = refusal

abbrev pub checked : Validation → RichCheck
checked authorised = passed
checked refusal = denied refusal

-- `d.get(field)` in a condition
abbrev pub has_true : Option Json → Bool
has_true none = false
has_true (some j) = is_true j

-- `missing_fields`
abbrev pub missing_in : List String → Json.Fields → List String
missing_in [] fs = []
missing_in (f ∷ fields) fs =
    let rest = missing_in fields fs in if has_true (item_of f fs) then rest else f ∷ rest

abbrev pub none_missing : List String → RichCheck
none_missing [] = passed
none_missing (f ∷ fields) = missing (f ∷ fields)

-- The fields of a dictionary in the content.
abbrev pub sub_fields : List String → Option Json → RichCheck
sub_fields fields (some (Json.obj fs)) = none_missing (missing_in fields fs)
sub_fields fields _ = crashed

-- `do_static_validation_json_ld`
unfoldable pub check_json_ld : Json.Fields → String → RichCheck
check_json_ld fs rs_id =
    if not (has_true (item_of "@id" fs))
    then no_json_ld
    else if not (has_true (item_of "@type" fs))
    then no_json_ld
    else elim (item_of "@id" fs) [
      | some (Json.str s) ↦ if s == rs_id then passed else id_differs
      | _ ↦ id_differs
    ]

-- `do_static_validation_content`
unfoldable pub check_content : Kind → Json.Fields → RichCheck
check_content rich_schema fs = passed
check_content pres_def fs = passed
check_content cred_def fs =
    none_missing (missing_in ("signatureType" ∷ "mapping" ∷ "schema" ∷ "publicKey" ∷ []) fs)
check_content encoding fs =
    and_then (none_missing (missing_in ("input" ∷ "output" ∷ "algorithm" ∷ "testVectors" ∷ []) fs))
      (and_then (sub_fields ("id" ∷ "type" ∷ []) (item_of "input" fs)) (
        and_then (sub_fields ("id" ∷ "type" ∷ []) (item_of "output" fs)) (
          sub_fields ("description" ∷ "documentation" ∷ "implementation" ∷ [])
            (item_of "algorithm" fs))))

-- The value of a dictionary's field, where the dictionary is one; `none` is AttributeError.
abbrev pub field_of : String → Json → Option (Option Json)
field_of k (Json.obj fs) = some (item_of k fs)
field_of k _ = none

-- `get(RS_TYPE) != expected`
abbrev pub check_type : (field expected : String) → Json → RichCheck
check_type field expected j = elim (field_of "rsType" j) [
  | none ↦ crashed
  | some (some (Json.str s)) ↦ if s == expected then passed else wrong_type field
  | some _ ↦ wrong_type field
]

abbrev pub is_found : Lookup → Bool
is_found (found j) = is_true j
is_found _ = false

abbrev pub json_of : Lookup → Json
json_of (found j) = j
json_of _ = Json.null

-- `if not schema`
abbrev pub check_found : (field : String) → Lookup → RichCheck
check_found field broken = crashed
check_found field nothing = cannot_find field
check_found field (found j) = if is_true j then passed else cannot_find field

-- `get_from_state` of an id that the content names.
abbrev pub referenced : RichState → Json → Lookup
referenced state (Json.str s) = get_from_state state s
referenced state _ = broken

abbrev pub check_pair : (schema mapping : Lookup) → RichCheck
check_pair schema mapping = and_then (check_found "schema" schema) (
    and_then (check_found "mapping" mapping) (
      and_then (check_type "schema" "sch" (json_of schema))
        (check_type "mapping" "map" (json_of mapping))))

abbrev pub both_there : RichState → (schema mapping : Option Json) → RichCheck
both_there state (some s) (some m) = check_pair (referenced state s) (referenced state m)
both_there state _ _ = crashed

-- `do_dynamic_validation_content` of a credential definition
unfoldable pub check_references : RichState → Json.Fields → RichCheck
check_references state fs = both_there state (item_of "schema" fs) (item_of "mapping" fs)

unfoldable pub make_secondary_key : (rs_type rs_name rs_version : String) → String
make_secondary_key rs_type rs_name rs_version = rs_type ++ (":" ++ (rs_name ++ (":" ++ rs_version)))

abbrev pub secondary_key : RichOp → String
secondary_key op = make_secondary_key op.rs_type op.rs_name op.rs_version

abbrev pub or_null : Option String → Json
or_null none = Json.null
or_null (some s) = Json.str s

-- `value` of `update_state`
abbrev pub object_value : RichOp → String → (endorser version : Option String) → Json
object_value op from endorser version = Json.obj (
    Json.field "id" (Json.str op.rs_id) (
      Json.field "rsType" (Json.str op.rs_type) (
        Json.field "rsName" (Json.str op.rs_name) (
          Json.field "rsVersion" (Json.str op.rs_version) (
            Json.field "content" (Json.str op.content) (
              Json.field "from" (Json.str from) (
                Json.field "endorser" (or_null endorser)
                  (Json.field "ver" (or_null version) Json.end))))))))

unfoldable pub update_object :
    RichState → DomainTxn RichOp → (endorser version : Option String) → RichState
update_object state txn endorser version =
    let op = txn.content in
    let stored = object_value op txn.from endorser version in
    put (secondary_key op) (reference op.rs_id)
      (put op.rs_id (value (encode_state_value stored txn.seq_no txn.txn_time)) state)

-- `judge` is the request validator, told whether an object is there.
abbrev pub after_lookup :
    (rs_object : Lookup)
    → (second : Option Entry) → (judge : Bool → Validation) → (content : RichCheck) → RichCheck
after_lookup broken second judge content = crashed
after_lookup rs_object second judge content =
    if not (is_found rs_object) && not (is_none second)
    then name_taken
    else and_then (checked (judge (is_found rs_object))) content

-- `parse` is the JSON parser of the plenum library.
module _ (parse : String → Option Json) where
  abbrev pub check_parsed : Kind → RichOp → Option Json → RichCheck
  check_parsed kind op none = not_json
  check_parsed kind op (some (Json.obj fs)) =
      and_then (if is_json_ld_content kind then check_json_ld fs op.rs_id else passed)
        (check_content kind fs)
  check_parsed kind op (some _) = crashed

  -- `static_validation`
  unfoldable pub static_validation : (enabled : Bool) → Kind → RichOp → RichCheck
  static_validation enabled kind op =
      if enabled then check_parsed kind op (parse op.content) else disabled

  abbrev pub check_dynamic_content : RichState → Kind → Option Json → RichCheck
  check_dynamic_content state cred_def (some (Json.obj fs)) = check_references state fs
  check_dynamic_content state cred_def _ = crashed
  check_dynamic_content state _ content = passed

  module _ (authorise : Request → List Action → Validation) where
    -- `additional_dynamic_validation`
    unfoldable pub validate_object : RichState → Kind → Request → RichOp → RichCheck
    validate_object state kind request op =
        after_lookup (get_from_state state op.rs_id) (get (secondary_key op) state)
          (λ exists. authorise request (whole_action (txn_type kind) exists ∷ []))
          (check_dynamic_content state kind (parse op.content))

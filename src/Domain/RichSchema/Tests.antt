-- ===== src/Domain/RichSchema/Tests.antt =====
-- Objects of rich schemas on small inputs, and the theorems there.
use indy_node.Base.{
  ℕ, String, Option, none, some, true, false, [], ◌∷◌, ◌==◌, get, if◌then◌else◌, ◌≡◌, refl,
}
use indy_node.Base.Json as Json
use indy_node.Base.Json.{Json, item_of}
use indy_node.Auth.Action.{auth_action_add, auth_action_edit, get_action_id, split_action_id}
use indy_node.Auth.Constraint.{Constraint, forbidden}
use indy_node.Auth.Request.{Request}
use indy_node.Auth.Role.{trustee}
use indy_node.Auth.Strategy.{
  local_auth_constraint, find_auth_constraint_key, is_accepted_action_id, accepts_parts,
}
use indy_node.Auth.Validator as V
use indy_node.Auth.Validator.{get_auth_constraint}
use indy_node.Auth.Authorizer.{
  authorize, authorize_role, get_sig_count, is_role_accepted, authorize_endorser,
  check_endorser_role, check_endorser_field_presence,
}
use indy_node.Auth.Verdict.{run_authorizers}
use indy_node.Domain.Definitions.{DomainTxn, encode_state_value, whole_action}
use indy_node.Domain.Definitions.Kept.{authorise}
use indy_node.Domain.RichSchema.{
  encoding, cred_def, RichOp, Entry, value, reference, RichState, passed, missing,
  static_validation, validate_object, update_object, check_references, check_content,
  make_secondary_key, object_value, get_from_state, is_found, secondary_key,
}
use indy_node.Domain.RichSchema.References.{RefersTo, cred_def_refers}
use indy_node.Domain.RichSchema.Mapping.{
  is_leaf_dict, find_descs, check_descs, ranks, range_from, list_eq, check_encodings, check_mapping,
  validate_mapping,
}
use indy_node.Domain.RichSchema.Mapping.Checked.{GoodMapping, mapping_checked}
use indy_node.Revocation.Sets.{sort, insert}

program : Unit {0}
unfolding item_of static_validation validate_object update_object check_references check_content
    make_secondary_key whole_action V.validate get_auth_constraint authorize run_authorizers
    local_auth_constraint find_auth_constraint_key is_accepted_action_id accepts_parts
    auth_action_add auth_action_edit get_action_id split_action_id authorize_role get_sig_count
    is_role_accepted authorize_endorser check_endorser_role check_endorser_field_presence
    is_leaf_dict find_descs check_descs ranks range_from list_eq check_encodings check_mapping
    validate_mapping sort insert
program = tt

abbrev role_of : String → Option String
role_of did = if did == "did" then some trustee else none

abbrev nothing_there : String → Option String
nothing_there s = none

abbrev deserialized : String → Constraint
deserialized s = forbidden

abbrev request : Request
request = record {
  identifier = "did";
  req_id = 1;
  signature = some "sig";
  signatures = [];
  endorser = none;
}

abbrev object_of : (id rs_type name content : String) → RichOp
object_of id t name text = record {
  rs_id = id;
  rs_type = t;
  rs_name = name;
  rs_version = "1";
  content = text;
}

abbrev written : RichOp → Entry
written op = value (encode_state_value (object_value op "did" none none) 4 40)

-- A schema and a mapping.
abbrev with_objects : RichState
with_objects =
    ("s", written (object_of "s" "sch" "degree" ""))
    ∷ ("sch:degree:1", reference "s")
    ∷ ("m", written (object_of "m" "map" "degree" ""))
    ∷ ("map:degree:1", reference "m")
    ∷ []

abbrev definition : RichOp
definition = object_of "c" "cdf" "degree" "{}"

abbrev content : Json.Fields
content = Json.field "schema" (Json.str "s") (
    Json.field "mapping" (Json.str "m") (
      Json.field "signatureType" (Json.str "CL")
        (Json.field "publicKey" (Json.str "key") Json.end)))

-- A parser that reads every text as the content.
abbrev parse : String → Option Json
parse s = some (Json.obj content)

abbrev txn : DomainTxn RichOp
txn = record { from = "did"; content = definition; seq_no = 9; txn_time = 90 }

definition_static : static_validation parse true cred_def definition ≡ passed
unfolding program
definition_static = refl

encoding_misses :
    static_validation parse true encoding definition
    ≡ missing ("input" ∷ "output" ∷ "algorithm" ∷ "testVectors" ∷ [])
unfolding program
encoding_misses = refl

definition_valid :
    validate_object parse
      (authorise role_of nothing_there deserialized)
      with_objects
      cred_def
      request
      definition
    ≡ passed
unfolding program
definition_valid = refl

abbrev schema_entry : Entry
schema_entry = written (object_of "s" "sch" "degree" "")

cred_def_refers_example :
    (is_found (get_from_state with_objects "c") ≡ false)
    × (get (secondary_key definition) with_objects ≡ none)
    × ((fs : Json.Fields) × (parse "{}" ≡ some (Json.obj fs))
        × RefersTo with_objects fs "schema" "sch"
        × RefersTo with_objects fs "mapping" "map")
cred_def_refers_example =
    cred_def_refers role_of nothing_there deserialized parse with_objects request definition
      definition_valid

-- A mapping of two attributes.
abbrev attribute : ℕ → Json
attribute n = Json.obj (Json.field "enc" (Json.str "e") (Json.field "rank" (Json.num n) Json.end))

abbrev mapped : Json.Fields
mapped = Json.field "schema" (Json.str "s") (
    Json.field "attributes"
      (Json.obj
        (Json.field "issuer" (attribute 2) (Json.field "issuanceDate" (attribute 1) Json.end)))
      Json.end)

abbrev with_encoding : RichState
with_encoding = ("e", written (object_of "e" "enc" "identity" "")) ∷ with_objects

abbrev parse_mapped : String → Option Json
parse_mapped s = some (Json.obj mapped)

abbrev mapping : RichOp
mapping = object_of "m2" "map" "diploma" "{}"

mapping_valid :
    validate_mapping parse_mapped
      (authorise role_of nothing_there deserialized)
      with_encoding
      request
      mapping
    ≡ passed
unfolding program
mapping_valid = refl

mapping_checked_example :
    (is_found (get_from_state with_encoding "m2") ≡ false)
    × (get (secondary_key mapping) with_encoding ≡ none)
    × ((fs : Json.Fields) × (parse_mapped "{}" ≡ some (Json.obj fs)) × GoodMapping with_encoding fs)
mapping_checked_example =
    mapping_checked role_of nothing_there deserialized parse_mapped with_encoding request mapping
      mapping_valid

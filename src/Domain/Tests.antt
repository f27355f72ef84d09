-- ===== src/Domain/Tests.antt =====
-- Writes of the domain ledger on small inputs, and the theorems there.
use Prim.Native.String as Text
use Prim.Native.String.{◌++◌}
use indy_node.Base.{
  put, ℕ, String, Option, none, some, Bool, true, false, [], ◌∷◌, ◌==◌, get, ◌≡◌, ◌≢◌, refl, ap,
  arith, eq_iff, if◌then◌else◌,
}
use indy_node.Base.Json as Json
use indy_node.Base.Json.{Json}
use indy_node.Auth.Action.{auth_action_add, auth_action_edit, get_action_id, split_action_id}
use indy_node.Auth.Constraint.{Constraint, forbidden}
use indy_node.Auth.Request.{Request}
use indy_node.Auth.Role.{trustee}
use indy_node.Auth.Strategy.{
  local_auth_constraint, find_auth_constraint_key, is_accepted_action_id, accepts_parts,
}
use indy_node.Auth.Validator.{validate, get_auth_constraint}
use indy_node.Auth.Authorizer.{
  authorize, authorize_role, get_sig_count, is_role_accepted, authorize_endorser,
  check_endorser_role, check_endorser_field_presence,
}
use indy_node.Auth.Verdict.{run_authorizers}
use indy_node.Base.Decimal.{str_of, digits}
use indy_node.Domain.Paths.{
  make_state_path_for_attr, make_state_path_for_schema, make_state_path_for_claim_def,
  make_state_path_for_revoc_def,
}
use indy_node.Domain.Paths.Colons.{plain, colons}
use indy_node.Domain.Paths.Places.{
  Place, attr_at, schema_at, claim_def_at, WellFormed, path_of, path_of-injective,
}
use indy_node.Domain.Definitions as D
use indy_node.Domain.Definitions.{
  DomainState, DomainTxn, SchemaData, ClaimDefData, RevocDefData, StateValue, encode_state_value,
  whole_action, validate_schema, update_schema, prepare_schema_for_state, update_claim_def,
  prepare_claim_def_for_state, update_revoc_def, prepare_revoc_def_for_state, validate_claim_def,
  validate_revoc_def, is_there, value_at,
}
use indy_node.Domain.Definitions.Kept.{
  authorise, schema_kept, other_places_kept, claim_def_txn, write_definition,
}
use indy_node.Domain.Attribute as A
use indy_node.Domain.Attribute.{
  AttribOp, AttrType, hash_attr, AttributeStore, found, typed_value, last_key, parse_attr_txn,
  update_attribute, get_attr, is_hash, transform_txn_for_ledger, validate_attribute,
}
use indy_node.Domain.Attribute.Reads.{get_attr-update, text_of}

program : Unit {0}
unfolding plain colons make_state_path_for_attr make_state_path_for_schema
    make_state_path_for_claim_def make_state_path_for_revoc_def whole_action validate_schema
    update_schema prepare_schema_for_state update_claim_def prepare_claim_def_for_state
    update_revoc_def prepare_revoc_def_for_state validate_claim_def validate_revoc_def typed_value
    last_key parse_attr_txn update_attribute get_attr transform_txn_for_ledger validate_attribute
    A.static_validation D.static_validation validate get_auth_constraint authorize run_authorizers
    local_auth_constraint find_auth_constraint_key is_accepted_action_id accepts_parts
    auth_action_add auth_action_edit get_action_id split_action_id authorize_role get_sig_count
    is_role_accepted authorize_endorser check_endorser_role check_endorser_field_presence str_of
    digits
program = tt

-- A digest that is not empty.
abbrev digest : String → String
digest s = Text.◌∷◌ "#" s

abbrev schema_place : Place
schema_place = schema_at "did" "degree:bachelor" "1.0"

abbrev claim_place : Place
claim_place = claim_def_at "did" "12" "CL" "a:b"

schema_place-WellFormed : WellFormed schema_place
unfolding program
schema_place-WellFormed = (refl, refl)

claim_place-WellFormed : WellFormed claim_place
unfolding program
claim_place-WellFormed = (refl, refl, refl)

schema_path : path_of digest schema_place ≡ "did:2:degree:bachelor:1.0"
unfolding program
schema_path = refl

-- The same place, with a name that is put together.
abbrev joined_place : Place
joined_place = schema_at "did" ("degree" ++ ":bachelor") "1.0"

joined_place-WellFormed : WellFormed joined_place
unfolding program
joined_place-WellFormed = (refl, refl)

joined_path : path_of digest joined_place ≡ path_of digest schema_place
unfolding program
joined_path = refl

path_of-injective_example : joined_place ≡ schema_place
path_of-injective_example =
    path_of-injective digest joined_place schema_place joined_place-WellFormed
      schema_place-WellFormed joined_path

abbrev role_of : String → Option String
role_of did = if did == "did" then some trustee else none

abbrev nothing_there : String → Option String
nothing_there s = none

abbrev deserialized : String → Constraint
deserialized s = forbidden

abbrev request : Request
request = record {
  identifier = "did";
  req_id = 1;
  signature = some "sig";
  signatures = [];
  endorser = none;
}

abbrev degree : String → DomainTxn SchemaData
degree v = record {
  from = "did";
  content = record { name = "degree"; version = v; attr_names = Json.str "name" };
  seq_no = 7;
  txn_time = 100;
}

abbrev with_degree : DomainState
with_degree =
    (
      "did:2:degree:1.0",
      encode_state_value (Json.obj (Json.field "attr_names" (Json.str "name") Json.end)) 5 50,
    )
    ∷ []

abbrev no_type : ℕ → Option String
no_type n = none

next_valid :
    validate_schema
      (authorise role_of nothing_there deserialized)
      no_type
      with_degree
      request
      (degree "2.0").content
    ≡ D.passed
unfolding program
next_valid = refl

schema_kept_example :
    get "did:2:degree:1.0" (update_schema with_degree (degree "2.0"))
    ≡ get "did:2:degree:1.0" with_degree
schema_kept_example =
    schema_kept role_of nothing_there deserialized no_type with_degree request (degree "2.0")
      "did:2:degree:1.0" next_valid refl refl

abbrev other : String
other = "other"

other_did : other ≢ "did"
other_did e = absurd (ground (arith, (eq_iff other "did").1 e))

abbrev other_place : Place
other_place = attr_at other "#endpoint"

plain_dids : (plain other ≡ true) × (plain "did" ≡ true)
unfolding program
plain_dids = (refl, refl)

abbrev claim_txn : DomainTxn ClaimDefData
claim_txn = record {
  from = "did";
  content = record {
    schema_ref = some 5;
    signature_type = none;
    tag = none;
    public_keys = some (Json.str "key");
  };
  seq_no = 9;
  txn_time = 120;
}

abbrev with_claim_def : DomainState
with_claim_def = put "did:3:CL:5:tag" (encode_state_value (Json.str "key") 9 120) with_degree

claim_def_written : write_definition with_degree (claim_def_txn claim_txn) ≡ some with_claim_def
unfolding program
claim_def_written = refl

other_places_kept_example :
    get (path_of digest other_place) with_claim_def ≡ get (path_of digest other_place) with_degree
other_places_kept_example =
    other_places_kept digest other_place "did" other_did plain_dids.0 plain_dids.1 with_degree
      with_claim_def (claim_def_txn claim_txn) refl claim_def_written

-- A parser that reads every text as an object with the one key "endpoint".
abbrev parse : String → Option Json.Fields
parse s = some (Json.field "endpoint" (Json.str s) Json.end)

abbrev dump : Json.Fields → String
dump (Json.field k (Json.str s) fs) = s
dump _ = ""

abbrev endpoint : DomainTxn AttribOp
endpoint = record {
  from = "did";
  content = record { dest = "did"; raw = some "127.0.0.1"; enc = none; hash = none };
  seq_no = 8;
  txn_time = 110;
}

endpoint_valid : A.static_validation parse dump digest endpoint.content ≡ A.passed
unfolding program
endpoint_valid = refl

endpoint_stored :
    update_attribute parse dump digest [] [] endpoint
    ≡ some (
      ("did:1:#endpoint", encode_state_value (Json.str "#127.0.0.1") 8 110) ∷ [],
      ("#127.0.0.1", "127.0.0.1") ∷ [],
    )
unfolding program
endpoint_stored = refl

digest_nonempty : (s : String) → digest s ≢ ""
digest_nonempty s e = absurd (ground (arith, ap is_empty e))
  where
    is_empty : String → Bool
    is_empty Text.[] = true
    is_empty (Text.◌∷◌ c t) = false

get_attr-update_example :
    (r : AttrType × String × Option String) × (w : DomainState × AttributeStore) × (parse_attr_txn
        parse dump digest endpoint.content
      ≡ some r)
    × (update_attribute parse dump digest [] [] endpoint ≡ some w)
    × (get_attr parse dump digest w.0 w.1 "did" r.1 r.0
        ≡ some (found (Json.str (text_of r.2)) 8 110))
    × ((path : String)
        → make_state_path_for_attr digest "did" r.1 (is_hash r.0) ≢ path
        → get path w.0 ≡ get path [])
get_attr-update_example =
    get_attr-update parse dump digest digest_nonempty [] [] endpoint endpoint_valid

-- ===== src/Reads/Attribute.antt =====
-- get_attribute_handler.py under indy_node/server/request_handlers/read_req_handlers.
use indy_node.Base.{String, Option, none, some, true, get, if◌then◌else◌}
use indy_node.Base.Json.{Json}
use indy_node.Domain.Paths.{make_state_path_for_attr}
use indy_node.Domain.Definitions.{StateValue}
use indy_node.Domain.Attribute.{AttrType, hash_attr, is_hash, AttribOp, typed_value, AttributeStore}
use indy_node.Reads.{
  Ledger, Lookup, looked, Answer, result, both_versions, bad_keys, value_error, Version, both_given,
  lookup_version,
}

-- `_get_value_from_attribute_store`, where the key is a text.
abbrev pub value_of_key : AttributeStore → Json → Option String
value_of_key attrs (Json.str h) = get h attrs
value_of_key attrs _ = none

abbrev pub attr_data : AttributeStore → AttrType → (asked : String) → Json → Option String
attr_data attrs hash_attr asked key = some asked
attr_data attrs _ asked key = value_of_key attrs key

abbrev pub attr_answer :
    AttributeStore → AttrType → (asked : String) → Lookup StateValue → Answer String
attr_answer attrs t asked (looked none proof) = result none none none proof
attr_answer attrs t asked (looked (some v) proof) =
    result (attr_data attrs t asked v.val) (some (v.lsn)) (some (v.lut)) proof
attr_answer attrs t asked Lookup.value_error = value_error

-- `get_result`. The one key of RAW, ENC and HASH that is there gives the type and what is asked
-- for.
unfoldable pub get_attr_result :
    (sha256 : String → String)
    → Ledger StateValue
    → AttributeStore
    → AttribOp
    → Version
    → Answer String
get_attr_result sha256 ledger attrs op v =
    if both_given v then both_versions else elim (typed_value op.raw op.enc op.hash) [
      | none ↦ bad_keys
      | some (t, asked) ↦ attr_answer attrs t asked (
          lookup_version ledger (make_state_path_for_attr sha256 op.dest asked (is_hash t)) v.seq_no
            v.timestamp true)
    ]

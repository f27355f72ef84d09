-- ===== src/Domain/Attribute.antt =====
-- attribute_handler.py under indy_node/server/request_handlers/domain_req_handlers. The state holds
-- the hash of an attribute, and the attribute store the value under that hash.
pub mod Reads
use indy_node.Base.{
  ℕ, String, Option, none, some, Bool, true, false, not, ◌&&◌, ◌||◌, List, [], ◌∷◌, num_eq, ◌==◌,
  get, put, get-put, opt_eq, is_none, if◌then◌else◌, ◌≡◌, ◌≢◌, refl, sym, ap, ◌∙◌, arith, eq_iff,
  same_eq, other_eq, Bool-cases, Option-cases, inl, inr,
}
use indy_node.Base.Json as Json
use indy_node.Base.Json.{Json}
use indy_node.Auth.Txn
use indy_node.Auth.Action.{Action, Value, text, auth_action_add, auth_action_edit}
use indy_node.Auth.Request.{Request}
use indy_node.Auth.Strategy.{◌>>=◌}
use indy_node.Auth.Validator.{Validation, authorised}
use indy_node.Identity.Diddoc.{is_true}
use indy_node.Domain.Paths.{make_state_path_for_attr}
use indy_node.Domain.Definitions.{DomainState, DomainTxn, StateValue, encode_state_value}

pub data AttrType : Type 0 where
  raw_attr enc_attr hash_attr : AttrType

abbrev pub is_hash : AttrType → Bool
is_hash hash_attr = true
is_hash _ = false

-- `field`: RAW, ENC or HASH
abbrev pub field_name : AttrType → String
field_name raw_attr = "raw"
field_name enc_attr = "enc"
field_name hash_attr = "hash"

-- The payload of an ATTRIB transaction; `none` is a key that is not there.
pub record AttribOp : Type 0 where
  pub dest : String
  pub raw : Option String
  pub enc : Option String
  pub hash : Option String

-- `validate_attrib_keys` and `_extract_attr_typed_value`; `none` is ValueError.
unfoldable pub typed_value :
    Option String → Option String → Option String → Option (AttrType × String)
typed_value (some r) none none = some (raw_attr, r)
typed_value none (some e) none = some (enc_attr, e)
typed_value none none (some h) = some (hash_attr, h)
typed_value _ _ _ = none

-- The first of the keys RAW, ENC and HASH that is there, with its value.
abbrev pub first_value : Option String → Option String → Option String → Option (AttrType × String)
first_value (some r) e h = some (raw_attr, r)
first_value none (some e) h = some (enc_attr, e)
first_value none none (some h) = some (hash_attr, h)
first_value none none none = none

-- `list(data.keys())[0]`; `none` is IndexError.
abbrev pub first_key : Json.Fields → Option String
first_key Json.end = none
first_key (Json.field k j fs) = some k

-- `data.popitem()[0]`; `none` is KeyError.
unfoldable pub last_key : Json.Fields → Option String
last_key Json.end = none
last_key (Json.field k j Json.end) = some k
last_key (Json.field k j (Json.field l i fs)) = last_key (Json.field l i fs)

-- `attribute_store`
abbrev pub AttributeStore : Type 0
AttributeStore = List (String × String)

-- What `_get_attr` finds: the value, and the number and time of its transaction.
pub data Attr : Type 0 where
  nothing : Attr
  found : Json → ℕ → ℕ → Attr

pub data AttrCheck : Type 0 where
  passed : AttrCheck
  denied : Validation → AttrCheck
  bad_keys empty_object no_json no_nym crashed : AttrCheck

abbrev pub checked : Validation → AttrCheck
checked authorised = passed
checked refusal = denied refusal

-- `parse` reads a JSON object and `dump` writes it, and `sha256` is the hexadecimal digest.
module _ (parse : String → Option Json.Fields) (dump : Json.Fields → String)
    (sha256 : String → String) where
  -- `static_validation`
  unfoldable pub static_validation : AttribOp → AttrCheck
  static_validation op = elim (typed_value op.raw op.enc op.hash) [
    | none ↦ bad_keys
    | some (t, v) ↦ elim t [
      | raw_attr ↦ elim (parse v) [
        | none ↦ no_json
        | some fields ↦ if is_none (first_key fields) then empty_object else passed
      ]
      | _ ↦ passed
    ]
  ]

  abbrev pub parse_typed : AttrType → String → Option (AttrType × String × Option String)
  parse_typed raw_attr attr = do
    fields ← parse attr
    key ← last_key fields
    some (raw_attr, key, some (dump fields))
  parse_typed enc_attr attr = some (enc_attr, attr, some attr)
  parse_typed hash_attr attr = some (hash_attr, attr, none)

  -- `parse_attr_txn`: the type, the key and the value
  unfoldable pub parse_attr_txn : AttribOp → Option (AttrType × String × Option String)
  parse_attr_txn op = do (t, attr) ← typed_value op.raw op.enc op.hash; parse_typed t attr

  -- `hash_of(value) if value else ''`
  abbrev pub hashed_value : Option String → String
  hashed_value none = ""
  hashed_value (some v) = if v == "" then "" else sha256 v

  abbrev pub set_value : AttrType → String → Option String → AttributeStore → AttributeStore
  set_value raw_attr h (some v) attrs = put h v attrs
  set_value enc_attr h (some v) attrs = put h v attrs
  set_value _ h _ attrs = attrs

  -- `prepare_attr_for_state` and `update_state`
  unfoldable pub update_attribute :
      DomainState → AttributeStore → DomainTxn AttribOp → Option (DomainState × AttributeStore)
  update_attribute state attrs txn = do
    (t, key, value) ← parse_attr_txn txn.content
    some (
      put (make_state_path_for_attr sha256 txn.content.dest key (is_hash t))
          (encode_state_value (Json.str (hashed_value value)) txn.seq_no txn.txn_time) state,
      set_value t (hashed_value value) value attrs,
    )

  abbrev pub stored_value : AttributeStore → StateValue → Option Attr
  stored_value attrs v =
      if not (is_true v.val) then some (found v.val v.lsn v.lut) else elim v.val [
        | Json.str h ↦ do s ← get h attrs; some (found (Json.str s) v.lsn v.lut)
        | _ ↦ none
      ]

  -- `_get_attr`; `none` is KeyError of the attribute store.
  unfoldable pub get_attr :
      DomainState → AttributeStore → (did key : String) → AttrType → Option Attr
  get_attr state attrs did key t =
      elim (get (make_state_path_for_attr sha256 did key (is_hash t)) state) [
        | none ↦ some nothing
        | some v ↦ stored_value attrs v
      ]

  -- `transform_txn_for_ledger`
  abbrev pub hide : AttrType → String → AttribOp → AttribOp
  hide raw_attr h op = record op { raw = some h }
  hide enc_attr h op = record op { enc = some h }
  hide hash_attr h op = op

  unfoldable pub transform_txn_for_ledger : DomainTxn AttribOp → Option (DomainTxn AttribOp)
  transform_txn_for_ledger txn = do
    (t, key, value) ← parse_attr_txn txn.content
    some (record txn { content = hide t (hashed_value value) txn.content })

  -- The key of the attribute that the validation looks up.
  abbrev pub looked_up : AttrType → String → Option String
  looked_up raw_attr v = do fields ← parse v; first_key fields
  looked_up _ v = some v

  abbrev pub old_value : Json → Option Value
  old_value (Json.str s) = some (text s)
  old_value _ = none

  abbrev pub attr_action : AttrType → (value : String) → (is_owner : Bool) → Attr → Action
  attr_action t value is_owner nothing =
      auth_action_add Txn.attrib (some (text (field_name t))) (some (text value)) is_owner
  attr_action t value is_owner (found old _ _) =
      auth_action_edit Txn.attrib (some (text (field_name t))) (old_value old) (some (text value))
        is_owner

  module _ (authorise : Request → List Action → Validation) (has_nym : String → Bool)
      (owner_of : String → Option String) where
    abbrev pub attr_check : Request → Bool → Option (AttrType × String × Attr) → AttrCheck
    attr_check request is_owner none = crashed
    attr_check request is_owner (some (t, value, attr)) =
        checked (authorise request (attr_action t value is_owner attr ∷ []))

    -- `additional_dynamic_validation`
    unfoldable pub validate_attribute :
        DomainState → AttributeStore → Request → AttribOp → AttrCheck
    validate_attribute state attrs request op =
        if not (op.dest == "" || has_nym op.dest)
        then no_nym
        else attr_check request (opt_eq (owner_of op.dest) (some request.identifier)) (do
          (t, value) ← first_value op.raw op.enc op.hash
          key ← looked_up t value
          attr ← get_attr state attrs op.dest key t
          some (t, value, attr))

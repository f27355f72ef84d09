-- ===== src/Identity/Nym.antt =====
-- indy_node/server/request_handlers/domain_req_handlers/nym_handler.py: the
-- validation of NYM requests.
pub mod Newcomers
pub mod Static
pub mod Permission
use Prim.Native.String as Text
use Prim.Native.Char.{Char, code}
use indy_node.Base.{
  ℕ, zero, suc, String, Option, none, some, Bool, true, false, not, ◌&&◌, ◌||◌, List, [], ◌∷◌,
  num_eq, leb, truthy, opt_eq, is_none, get, put, if◌then◌else◌, ◌==◌,
}
use indy_node.Base.Chars.{is_space}
use indy_node.Base.Json.{Json}
use indy_node.Auth.Role.{trustee, steward, endorser, network_monitor}
use indy_node.Auth.Txn.{nym}
use indy_node.Auth.Action.{Action, text, as_value, auth_action_add, auth_action_edit}
use indy_node.Auth.Request.{Request}
use indy_node.Auth.Validator.{Validation, authorised, no_action}
use indy_node.Identity.Cache.{Backend, NymData, owner_of, cache_set}
use indy_node.Identity.Diddoc.{
  DocCheck, doc_valid, has_id, has_fragment, attribute_error, validate_diddoc_content,
}

-- The operation. A key that may be absent has an option outside; inside stands `None` or the value.
pub record NymOperation : Type 0 where
  pub dest : Option String
  pub role : Option (Option String)
  pub verkey : Option (Option String)
  pub diddoc_content : Option (Option String)
  pub version : Option ℕ

-- `operation.get(key)`
abbrev pub value_or_none {ℓ} : {A : Type ℓ} → Option (Option A) → Option A
value_or_none none = none
value_or_none (some v) = v

pub data NymReason : Type 0 where
  dest_needed : NymReason
  bad_role : Option String → NymReason
  bad_document : DocCheck → NymReason
  bad_version : ℕ → NymReason
  not_own_did : NymReason
  verkey_needed : NymReason
  not_first_bytes : NymReason
  not_first_bytes_of_hash : NymReason
  version_is_set : NymReason
  nothing_to_update : NymReason

-- The check passes; InvalidClientRequest; the answer of the request validator; or another
-- exception.
pub data NymCheck : Type 0 where
  passed : NymCheck
  refused : NymReason → NymCheck
  denied : Validation → NymCheck
  crashed : NymCheck

abbrev pub next : NymCheck → NymCheck → NymCheck
next passed c = c
next (refused r) c = refused r
next (denied v) c = denied v
next crashed c = crashed

-- `not s.strip()`
unfoldable pub is_blank : String → Bool
is_blank Text.[] = true
is_blank (Text.◌∷◌ c s) = let rest = is_blank s in is_space c && rest

-- `Authoriser.isValidRole`
abbrev pub is_valid_role : Option String → Bool
is_valid_role none = true
is_valid_role (some r) =
    (r == trustee) || ((r == steward) || ((r == endorser) || (r == network_monitor)))

abbrev pub missing : Option String → Bool
missing none = true
missing (some s) = is_blank s

abbrev pub is_known_version : Option ℕ → Bool
is_known_version none = true
is_known_version (some v) = leb v 2

abbrev pub version_check : Option ℕ → NymCheck
version_check none = passed
version_check (some v) = if leb v 2 then passed else refused (bad_version v)

unfoldable pub document_check : Option Json → NymCheck
document_check none = crashed
document_check (some j) = elim (validate_diddoc_content j) [
  | doc_valid ↦ passed
  | has_id ↦ refused (bad_document has_id)
  | has_fragment ↦ refused (bad_document has_fragment)
  | attribute_error ↦ crashed
]

-- The document, where there is one that is not empty, and then the version.
unfoldable pub content_check :
    (loads : String → Option Json) → (content : Option String) → (version : Option ℕ) → NymCheck
content_check loads none version = version_check version
content_check loads (some content) version =
    if content == ""
    then version_check version
    else next (document_check (loads content)) (version_check version)

-- `static_validation`; `loads` is `json.loads`, with `none` for an exception.
unfoldable pub static_validation : (loads : String → Option Json) → NymOperation → NymCheck
static_validation loads op =
    if missing op.dest
    then refused dest_needed
    else if not (is_valid_role (value_or_none op.role))
    then refused (bad_role (value_or_none op.role))
    else content_check loads (value_or_none op.diddoc_content) op.version

-- `base58` and `sha256`; `b58decode` is `none` where it raises.
pub record Codec : Type 0 where
  pub b58encode : List ℕ → String
  pub b58decode : String → Option (List ℕ)
  pub sha256 : List ℕ → List ℕ

abbrev pub take : ℕ → List ℕ → List ℕ
take zero bytes = []
take (suc n) [] = []
take (suc n) (b ∷ bytes) = b ∷ take n bytes

-- `_legacy_convention_validation` and `_is_self_certifying`, where `digest` is `sha256` in the
-- latter.
unfoldable pub is_derived :
    Codec → (digest : List ℕ → List ℕ) → (identifier verkey : Option String) → Option Bool
is_derived codec digest identifier none = none
is_derived codec digest identifier (some verkey) = elim (codec.b58decode verkey) [
  | none ↦ none
  | some key ↦ some (opt_eq identifier (some (codec.b58encode (take 16 (digest key)))))
]

abbrev pub derived_check : Option Bool → NymReason → NymCheck
derived_check none reason = crashed
derived_check (some true) reason = passed
derived_check (some false) reason = refused reason

abbrev pub same_bytes : List ℕ → List ℕ
same_bytes bytes = bytes

unfoldable pub certifies : Codec → NymOperation → NymCheck
certifies codec op = elim op.version [
  | none ↦ passed
  | some v ↦
      if num_eq v 1
      then derived_check (is_derived codec same_bytes op.dest (value_or_none op.verkey))
          not_first_bytes
      else if num_eq v 2
      then derived_check (is_derived codec codec.sha256 op.dest (value_or_none op.verkey))
          not_first_bytes_of_hash
      else passed
]

-- `WriteRequestValidator.validate` returns or raises.
abbrev pub permit : Validation → NymCheck
permit authorised = passed
permit no_action = passed
permit v = denied v

-- `nym_of` is `getNym` on what is not yet committed, and `authorise` the request validator.
module _ (codec : Codec) (nym_of : String → Option NymData)
    (authorise : Request → List Action → Validation) where
  abbrev pub sender_check : Request → NymOperation → NymCheck
  sender_check request op =
      if not (is_none (nym_of request.identifier))
      then passed
      else if not (opt_eq (some request.identifier) op.dest)
      then refused not_own_did
      else if not (truthy (value_or_none op.verkey))
      then refused verkey_needed
      else passed

  -- `_validate_new_nym`
  unfoldable pub validate_new_nym : Request → NymOperation → NymCheck
  validate_new_nym request op = next (sender_check request op) (
      next (certifies codec op) (
        permit (
          authorise request (
            auth_action_add nym (some (text "role")) (as_value (value_or_none op.role)) true
            ∷ []))))

  -- The validation of one key of the operation.
  unfoldable pub key_check :
      Request
      → (key : String) → (old : Option String) → (new : Option (Option String)) → Bool
      → NymCheck
  key_check request key old none is_owner = passed
  key_check request key old (some new) is_owner = permit (
      authorise request
        (auth_action_edit nym (some (text key)) (as_value old) (as_value new) is_owner ∷ []))

  abbrev pub is_owner_of : Request → (dest : String) → Bool
  is_owner_of request dest = opt_eq (some request.identifier) (owner_of dest (nym_of dest))

  -- `_validate_existing_nym`
  unfoldable pub validate_existing_nym :
      Request → (dest : String) → NymOperation → NymData → NymCheck
  validate_existing_nym request dest op data_of_nym =
      let is_owner = is_owner_of request dest in
      if not (is_none op.version)
      then refused version_is_set
      else next (key_check request "role" data_of_nym.role op.role is_owner) (
          next (key_check request "verkey" data_of_nym.verkey op.verkey is_owner) (
            if is_none op.role && (is_none op.verkey && not is_owner)
            then refused nothing_to_update
            else passed))

  -- `additional_dynamic_validation`; `crashed` is the KeyError of an operation without target.
  unfoldable pub additional_dynamic_validation : Request → NymOperation → NymCheck
  additional_dynamic_validation request op = elim op.dest [
    | none ↦ crashed
    | some dest ↦ elim (nym_of dest) [
      | none ↦ validate_new_nym request op
      | some data_of_nym ↦ validate_existing_nym request dest op data_of_nym
    ]
  ]

-- ===== src/Identity/Tests.antt =====
-- Runs of the cache and of the NYM handlers, and the theorems at inputs that meet their hypotheses.
use indy_node.Base.{
  String, Option, none, some, Bool, true, false, List, [], ◌≡◌, ◌≢◌, refl, ap, ◌∙◌, arith, ◌==◌,
  get, put, get-put, same_eq, other_eq, if◌then◌else◌,
}
use indy_node.Base.Json.{item_of, Json, Items, Fields}
use indy_node.Auth.Role.{trustee, endorser}
use indy_node.Auth.Constraint.{Constraint, forbidden}
use indy_node.Auth.Request.{Request}
use indy_node.Auth.Rules.{auth_map}
use indy_node.Auth.Rules.Table.{RoleName, role_edit}
use indy_node.Auth.Validator.{local_auth_policy}
use indy_node.Auth.Validator.Privilege.{RoleChangeSigned}
use indy_node.Identity.Cache.{Backend, BackendLaws, NymData, cache_get, get_nym}
use indy_node.Identity.Diddoc.{
  has_fragment, after_hash, id_fragment_is, has_same_id_fragment, check_items, check_value,
  check_values, validate_diddoc_content,
}
use indy_node.Identity.Nym.{
  Codec, NymOperation, passed, is_derived, certifies, validate_new_nym, key_check,
  validate_existing_nym, additional_dynamic_validation,
}
use indy_node.Identity.Writes.{NymTxn, updated, update_state, update_cache}
use indy_node.Identity.Writes.Coherence.{Coherent, update-Coherent}
use indy_node.Identity.Nym.Newcomers.{Admitted, dynamic-Admitted}
use indy_node.Identity.Nym.{static_validation, content_check, document_check, is_blank}
use indy_node.Identity.Nym.Permission.{role_change_guarded}
use indy_node.Base.Split.{split, clean}
use indy_node.Auth.Role.{get_named_role}
use indy_node.Auth.Action.{
  auth_action_add, auth_action_edit, get_action_id, split_action_id, compile_action_id,
}
use indy_node.Auth.Verdict.{run_authorizers}
use indy_node.Auth.Authorizer.{
  is_role_accepted, is_privileged, count_signers, get_sig_count, authorize_role,
  check_endorser_role, endorser_signed, has_privileged_sig, check_endorser_field_presence,
  authorize_endorser, authorize,
}
use indy_node.Auth.Strategy.{
  accepts_parts, is_accepted_action_id, find_auth_constraint_key, local_auth_constraint,
}
use indy_node.Auth.Validator.{get_auth_constraint, validate}

-- Committed values, and those that are not yet.
abbrev plain : Backend
plain = record {
  Store = List (String × List String) × List (String × List String);
  Bytes = List String;
  store_get = λ s k c. if c then get k s.0 else get k s.1;
  store_set = λ s k v c. if c then (put k v s.0, s.1) else (s.0, put k v s.1);
  create_batch_from_current = λ s r. s;
  reject_batch = λ s. (s.0, s.0);
  first_batch_idr = λ s. none;
  commit_batch = λ s. some (s.1, s.1);
  rlp_encode = λ l. l;
  rlp_decode = λ l. l;
}

put_same :
    (k : String) (v : List String) (d : List (String × List String)) → get k (put k v d) ≡ some v
put_same k v d = get-put k k v d ∙ ap (λ c. if c then some v else get k d) (same_eq k)

put_other :
    (k j : String) (v : List String) (d : List (String × List String))
    → k ≢ j
    → get j (put k v d) ≡ get j d
put_other k j v d n = get-put k j v d ∙ ap (λ c. if c then some v else get j d) (other_eq k j n)

plain-BackendLaws : BackendLaws plain
plain-BackendLaws = record { get_set = set_same; get_other = set_other; decode_encode = λ l. refl }
  where
    set_same :
        (s : plain.Store) (k : String) (v : List String) (c : Bool)
        → plain.store_get (plain.store_set s k v c) k c ≡ some v
    set_same s k v true = put_same k v s.0
    set_same s k v false = put_same k v s.1

    set_other :
        (s : plain.Store) (k j : String) (v : List String) (c : Bool)
        → k ≢ j
        → plain.store_get (plain.store_set s k v c) j c ≡ plain.store_get s j c
    set_other s k j v true n = put_other k j v s.0 n
    set_other s k j v false n = put_other k j v s.1 n

abbrev no_verkey : Option String
no_verkey = none

unset : no_verkey ≢ some "-"
unset e = ground (arith, e)

abbrev creation : NymTxn
creation = record {
  nym = "did";
  author = some "T1";
  payload = record {
    dest = some "did";
    role = some (some endorser);
    verkey = none;
    diddoc_content = none;
    version = none;
  };
  seq_no = some 12;
  txn_time = some 5;
}

nothing_yet : Coherent plain plain-BackendLaws (λ k. k) ([], []) []
unfolding get_nym cache_get
nothing_yet nym = refl

update-Coherent_example :
    (after : plain.Store) × (update_cache plain
        ([], [])
        creation
        (update_state (λ k. k) [] creation).0
        false
      ≡ some after)
    × Coherent plain plain-BackendLaws (λ k. k) after (update_state (λ k. k) [] creation).1
unfolding update_state updated
update-Coherent_example =
    update-Coherent plain plain-BackendLaws (λ k. k) (λ i j e. e) ([], []) [] creation 12 refl unset
      nothing_yet

abbrev document : String → Json
document id = Json.obj (
    Fields.field "service"
      (Json.arr (Items.cons (Json.obj (Fields.field "id" (Json.str id) Fields.end)) Items.nil))
      Fields.end)

doc_program : Unit {0}
unfolding item_of after_hash id_fragment_is has_same_id_fragment check_items check_value
    check_values validate_diddoc_content
doc_program = tt

verkey_refused : validate_diddoc_content (document "did:indy:x#verkey") ≡ has_fragment
unfolding doc_program
verkey_refused = refl

abbrev no_codec : Codec
no_codec = record { b58encode = λ b. "did"; b58decode = λ s. some []; sha256 = λ b. b }

abbrev role_of : String → Option String
role_of did = if did == "T1" then some trustee else none

abbrev nothing : String → Option String
nothing key = none

abbrev deserialized : String → Constraint
deserialized bytes = forbidden

abbrev nym_of : String → Option NymData
nym_of did =
    if did == "T1"
    then some (record {
      role = some trustee;
      verkey = some "key";
      identifier = none;
      seq_no = some 1;
      txn_time = none;
    })
    else if did == "E"
    then some (record {
      role = some endorser;
      verkey = some "key";
      identifier = some "T1";
      seq_no = some 2;
      txn_time = none;
    })
    else none

abbrev by_trustee : Request
by_trustee = record {
  identifier = "T1";
  req_id = 1;
  signature = some "sig";
  signatures = [];
  endorser = none;
}

abbrev demotion : NymOperation
demotion = record {
  dest = some "E";
  role = some none;
  verkey = none;
  diddoc_content = none;
  version = none;
}

nym_program : Unit {0}
unfolding split clean compile_action_id split_action_id get_action_id auth_action_add
    auth_action_edit get_named_role run_authorizers is_role_accepted is_privileged count_signers
    get_sig_count authorize_role check_endorser_role endorser_signed has_privileged_sig
    check_endorser_field_presence authorize_endorser authorize accepts_parts is_accepted_action_id
    find_auth_constraint_key local_auth_constraint get_auth_constraint validate is_derived certifies
    validate_new_nym key_check validate_existing_nym additional_dynamic_validation
nym_program = tt

demotion_passes :
    additional_dynamic_validation no_codec nym_of
      (validate role_of nothing deserialized local_auth_policy auth_map)
      by_trustee
      demotion
    ≡ passed
unfolding nym_program
demotion_passes = refl

role_change_guarded_example :
    RoleChangeSigned role_of by_trustee
      (role_edit RoleName.endorser_name RoleName.identity_owner_name false)
      RoleName.endorser_name
      RoleName.identity_owner_name
role_change_guarded_example =
    role_change_guarded no_codec nym_of role_of nothing deserialized by_trustee
      RoleName.endorser_name RoleName.identity_owner_name "E" demotion
      (record {
        role = some endorser;
        verkey = some "key";
        identifier = some "T1";
        seq_no = some 2;
        txn_time = none;
      })
      (λ e. cc) refl refl refl refl demotion_passes

abbrev newcomer : NymOperation
newcomer = record {
  dest = some "did";
  role = none;
  verkey = some (some "key");
  diddoc_content = none;
  version = some 2;
}

newcomer_passes :
    additional_dynamic_validation no_codec nym_of
      (validate role_of nothing deserialized local_auth_policy auth_map)
      by_trustee
      newcomer
    ≡ passed
unfolding nym_program
newcomer_passes = refl

dynamic-Admitted_example :
    Admitted no_codec nym_of
      (validate role_of nothing deserialized local_auth_policy auth_map)
      by_trustee
      newcomer
dynamic-Admitted_example =
    dynamic-Admitted no_codec nym_of
      (validate role_of nothing deserialized local_auth_policy auth_map) by_trustee newcomer "did"
      refl refl newcomer_passes

abbrev loads : String → Option Json
loads s = if s == "doc" then some (document "did:indy:x#key") else none

abbrev with_document : NymOperation
with_document = record newcomer { diddoc_content = some (some "doc") }

with_document_passes : static_validation loads with_document ≡ passed
unfolding doc_program static_validation content_check document_check is_blank
with_document_passes = refl

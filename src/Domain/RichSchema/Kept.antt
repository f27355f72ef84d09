-- ===== src/Domain/RichSchema/Kept.antt =====
-- Objects of rich schemas are not changed once they are there, under the default rules of
-- indy_common/authorize/auth_map.py.
use indy_node.Base.{
  String, Option, none, some, Bool, true, false, not, ◌&&◌, get, is_none, if◌then◌else◌, ◌≡◌, ◌≢◌,
  refl, arith, Bool-cases, inl, inr,
}
use indy_node.Base.Json.{Json}
use indy_node.Auth.Action.{get_action_id, split_action_id, auth_action_add, auth_action_edit}
use indy_node.Auth.Constraint.{Constraint, forbidden}
use indy_node.Auth.Request.{Request}
use indy_node.Auth.Rules.{auth_map}
use indy_node.Auth.Strategy.{
  local_auth_constraint, find_auth_constraint_key, is_accepted_action_id, accepts_parts,
}
use indy_node.Auth.Validator.{
  Validation, authorised, unauthorised, not_allowed, bad_action_id, no_action,
}
use indy_node.Identity.Diddoc.{is_true}
use indy_node.Domain.Definitions.{whole_action}
use indy_node.Domain.Definitions.Kept.{authorise, never_edited}
use indy_node.Domain.RichSchema.{
  Kind, rich_schema, encoding, cred_def, pres_def, txn_type, RichOp, Entry, value, reference,
  RichState, Lookup, nothing, broken, found, get_from_state, RichCheck, passed, and_then, checked,
  is_found, secondary_key, validate_object, check_dynamic_content, after_lookup, name_taken,
}

edit_rule :
    (k : Kind)
    → local_auth_constraint auth_map (get_action_id (whole_action (txn_type k) true))
      ≡ some (some forbidden)
unfolding local_auth_constraint find_auth_constraint_key is_accepted_action_id accepts_parts
    get_action_id split_action_id auth_action_edit auth_action_add whole_action
edit_rule rich_schema = refl
edit_rule encoding = refl
edit_rule cred_def = refl
edit_rule pres_def = refl

checked-passed : (v : Validation) → checked v ≡ passed → v ≡ authorised
checked-passed authorised h = refl
checked-passed no_action h = absurd (ground (arith, h))
checked-passed (unauthorised r) h = absurd (ground (arith, h))
checked-passed not_allowed h = absurd (ground (arith, h))
checked-passed bad_action_id h = absurd (ground (arith, h))

pub and_then-passed : (a b : RichCheck) → and_then a b ≡ passed → (a ≡ passed) × (b ≡ passed)
and_then-passed passed b h = (refl, h)
and_then-passed a b h = absurd (ground (arith, h))

-- A key of an object, or a value that counts as there.
abbrev pub Firm : Entry → Type 0
Firm (value v) = is_true v.val ≡ true
Firm (reference k) = Unit

get-is_none : (o : Option Entry) (e : Entry) → o ≡ some e → is_none o ≡ false
get-is_none o e h = rw h refl

is_none-none : (o : Option Entry) → is_none o ≡ true → o ≡ none
is_none-none none h = refl
is_none-none (some e) h = absurd (ground (arith, h))

-- What the lookups of a valid request find: no object under its id, and nothing under its second
-- key.
abbrev pub NewObject : Lookup → Option Entry → RichCheck → Type 0
NewObject l second content =
    (l ≢ broken) × (is_found l ≡ false) × (second ≡ none) × (content ≡ passed)

judged :
    (l : Lookup) (second : Option Entry) (judge : Bool → Validation) (content : RichCheck)
    → l ≢ broken
    → judge true ≢ authorised
    → (if not (is_found l) && not (is_none second)
        then name_taken
        else and_then (checked (judge (is_found l))) content)
      ≡ passed
    → NewObject l second content
judged l second judge content whole never h = elim (Bool-cases (is_found l)) [
  | inl e ↦ absurd (never (checked-passed _ (and_then-passed _ _ (rw e at h)).0))
  | inr e ↦ elim (Bool-cases (is_none second)) [
    | inr n ↦ absurd (ground (arith, rw (e, n) at h))
    | inl n ↦ (whole, e, is_none-none second n, (and_then-passed _ _ (rw (e, n) at h)).1)
  ]
]

pub after_lookup-NewObject :
    (l : Lookup) (second : Option Entry) (judge : Bool → Validation) (content : RichCheck)
    → judge true ≢ authorised
    → after_lookup l second judge content ≡ passed
    → NewObject l second content
after_lookup-NewObject broken second judge content never h = absurd (ground (arith, h))
after_lookup-NewObject nothing second judge content never h =
    judged nothing second judge content (λ e. ground (arith, e)) never h
after_lookup-NewObject (found j) second judge content never h =
    judged (found j) second judge content (λ e. ground (arith, e)) never h

module _ (role_of state_of : String → Option String) (deserialize : String → Constraint)
    (parse : String → Option Json) where
  pub validate_object-NewObject :
      (state : RichState) (k : Kind) (q : Request) (op : RichOp)
      → validate_object parse (authorise role_of state_of deserialize) state k q op ≡ passed
      → NewObject
          (get_from_state state op.rs_id)
          (get (secondary_key op) state)
          (check_dynamic_content parse state k (parse op.content))
  unfolding validate_object
  validate_object-NewObject state k q op h =
      after_lookup-NewObject _ _ _ _
        (never_edited role_of state_of deserialize (txn_type k) (edit_rule k) q) h

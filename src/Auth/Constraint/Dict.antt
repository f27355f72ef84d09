-- ===== src/Auth/Constraint/Dict.antt =====
-- `as_dict` and `from_dict` of indy_common/authorize/auth_constraints.py: a constraint as the
-- dictionary that the config ledger holds. In what is read, `none` stands for any exception. An
-- attribute whose type is not that of the constructor's callers counts as one.
use indy_node.Base.{
  ℕ, String, Option, none, some, Bool, true, false, ◌&&◌, ◌||◌, ◌≡◌, refl, ◌==◌, if◌then◌else◌,
}
use indy_node.Base.Json.{Json, Items, Fields, item_of}
use indy_node.Auth.Constraint.{
  AuthConstraint, Constraint, forbidden, role_constraint, and_constraint, or_constraint,
  Constraints, nil, cons, role_validation,
}

abbrev pub role_json : Option String → Json
role_json none = Json.null
role_json (some r) = Json.str r

abbrev pub off_ledger_items : Option Bool → Fields
off_ledger_items none = Fields.end
off_ledger_items (some b) = Fields.field "off_ledger_signature" (Json.bool b) Fields.end

-- `AuthConstraint.as_dict`
abbrev pub role_dict : Option String → ℕ → Bool → Option Bool → Json → Fields
role_dict role sig_count need_to_be_owner off metadata =
    Fields.field "constraint_id" (Json.str "ROLE") (
      Fields.field "role" (role_json role) (
        Fields.field "sig_count" (Json.num sig_count) (
          Fields.field "need_to_be_owner" (Json.bool need_to_be_owner)
            (Fields.field "metadata" metadata (off_ledger_items off)))))

abbrev pub list_dict : String → Items → Json
list_dict constraint_id items = Json.obj (
    Fields.field "constraint_id" (Json.str constraint_id)
      (Fields.field "auth_constraints" (Json.arr items) Fields.end))

unfoldable mutual
  pub as_dict : Constraint → Json
  as_dict forbidden = Json.obj (Fields.field "constraint_id" (Json.str "FORBIDDEN") Fields.end)
  as_dict (role_constraint c) =
      Json.obj (role_dict c.role c.sig_count c.need_to_be_owner c.off_ledger_signature c.metadata)
  as_dict (and_constraint cs) = list_dict "AND" (as_dicts cs)
  as_dict (or_constraint cs) = list_dict "OR" (as_dicts cs)

  pub as_dicts : Constraints → Items
  as_dicts nil = Items.nil
  as_dicts (cons c cs) = Items.cons (as_dict c) (as_dicts cs)

abbrev pub read_role : Option Json → Option (Option String)
read_role (some Json.null) = some none
read_role (some (Json.str r)) = some (some r)
read_role _ = none

abbrev pub read_count : Option Json → Option ℕ
read_count (some (Json.num n)) = some n
read_count _ = none

abbrev pub read_owner : Option Json → Option Bool
read_owner none = some false
read_owner (some (Json.bool b)) = some b
read_owner _ = none

abbrev pub read_off_ledger : Option Json → Option (Option Bool)
read_off_ledger none = some none
read_off_ledger (some Json.null) = some none
read_off_ledger (some (Json.bool b)) = some (some b)
read_off_ledger _ = none

abbrev pub read_metadata : Option Json → Json
read_metadata none = Json.obj Fields.end
read_metadata (some m) = m

-- `AuthConstraint.__init__`, which validates the role.
unfoldable pub create_role : AuthConstraint → Option Constraint
create_role c = if role_validation c then some (role_constraint c) else none

abbrev pub create_from :
    Option (Option String)
    → Option ℕ
    → Option Bool
    → Option (Option Bool)
    → Json
    → Option Constraint
create_from (some role) (some n) (some owner) (some off) metadata = create_role (record {
  role = role;
  sig_count = n;
  need_to_be_owner = owner;
  off_ledger_signature = off;
  metadata = metadata;
})
create_from _ _ _ _ _ = none

-- `AuthConstraint.from_dict`
unfoldable pub role_from_dict : Fields → Option Constraint
role_from_dict fs =
    create_from (read_role (item_of "role" fs)) (read_count (item_of "sig_count" fs))
      (read_owner (item_of "need_to_be_owner" fs))
      (read_off_ledger (item_of "off_ledger_signature" fs)) (read_metadata (item_of "metadata" fs))

-- `AuthConstraintAnd(**as_dict)` takes no other key.
unfoldable pub no_other_key : Fields → Bool
no_other_key Fields.end = true
no_other_key (Fields.field k v fs) =
    let rest = no_other_key fs in ((k == "constraint_id") || (k == "auth_constraints")) && rest

abbrev pub and_of : Bool → Option Constraints → Option Constraint
and_of true (some cs) = some (and_constraint cs)
and_of _ _ = none

abbrev pub or_of : Bool → Option Constraints → Option Constraint
or_of true (some cs) = some (or_constraint cs)
or_of _ _ = none

-- The class of the id, and its `from_dict`.
unfoldable pub create_by_id : Option Json → Fields → Option Constraints → Option Constraint
create_by_id (some (Json.str constraint_id)) fs children =
    if constraint_id == "FORBIDDEN"
    then some forbidden
    else if constraint_id == "ROLE"
    then role_from_dict fs
    else if constraint_id == "AND"
    then and_of (no_other_key fs) children
    else if constraint_id == "OR"
    then or_of (no_other_key fs) children
    else none
create_by_id _ fs children = none

abbrev pub cons_if : Option Constraint → Option Constraints → Option Constraints
cons_if (some c) (some cs) = some (cons c cs)
cons_if _ _ = none

unfoldable mutual
  -- `create_constraint`
  pub create_constraint : Json → Option Constraint
  create_constraint (Json.obj fs) = create_by_id (item_of "constraint_id" fs) fs (children_of fs)
  create_constraint _ = none

  -- The constraints under `auth_constraints`.
  pub children_of : Fields → Option Constraints
  children_of Fields.end = none
  children_of (Fields.field k v fs) =
      let rest = children_of fs in
      let here = constraints_of v in if k == "auth_constraints" then here else rest

  pub constraints_of : Json → Option Constraints
  constraints_of (Json.arr items) = create_all items
  constraints_of _ = none

  pub create_all : Items → Option Constraints
  create_all Items.nil = some nil
  create_all (Items.cons j js) = let rest = create_all js in cons_if (create_constraint j) rest

unfoldable mutual
  -- Every role constraint inside is one that its constructor accepts.
  pub IsCreated : Constraint → Type 0
  IsCreated forbidden = Unit
  IsCreated (role_constraint c) = role_validation c ≡ true
  IsCreated (and_constraint cs) = AreCreated cs
  IsCreated (or_constraint cs) = AreCreated cs

  pub AreCreated : Constraints → Type 0
  AreCreated nil = Unit
  AreCreated (cons c cs) = IsCreated c × AreCreated cs

role_parts :
    (role : Option String) (n : ℕ) (owner : Bool) (off : Option Bool) (metadata : Json)
    → role_from_dict (role_dict role n owner off metadata)
      ≡ create_role (record {
        role = role;
        sig_count = n;
        need_to_be_owner = owner;
        off_ledger_signature = off;
        metadata = metadata;
      })
unfolding role_from_dict item_of
role_parts none n owner none metadata = refl
role_parts none n owner (some b) metadata = refl
role_parts (some r) n owner none metadata = refl
role_parts (some r) n owner (some b) metadata = refl

mutual
  unfolding as_dict as_dicts create_constraint children_of constraints_of create_all create_by_id
      item_of no_other_key create_role IsCreated AreCreated

  create-as_dict : (c : Constraint) → IsCreated c → create_constraint (as_dict c) ≡ some c
  create-as_dict forbidden h = refl
  create-as_dict (role_constraint c) h =
      rw (role_parts c.role c.sig_count c.need_to_be_owner c.off_ledger_signature c.metadata)
        (rw h refl)
  create-as_dict (and_constraint cs) h = rw (create_all-as_dicts cs h) refl
  create-as_dict (or_constraint cs) h = rw (create_all-as_dicts cs h) refl

  create_all-as_dicts : (cs : Constraints) → AreCreated cs → create_all (as_dicts cs) ≡ some cs
  create_all-as_dicts nil h = refl
  create_all-as_dicts (cons c cs) h =
      rw (create-as_dict c h.0) (rw (create_all-as_dicts cs h.1) refl)

-- A constraint whose role constraints their constructor accepts is created again from its
-- dictionary.
pub create_constraint-as_dict :
    (c : Constraint) → IsCreated c → create_constraint (as_dict c) ≡ some c
create_constraint-as_dict c h = create-as_dict c h

-- ===== src/Auth/Constraint/Tests.antt =====
-- Constraints as dictionaries, and the theorem at an input that meets its hypothesis.
use indy_node.Base.{none, some, true, false, ◌≡◌, refl}
use indy_node.Base.Json.{Json, Items, Fields, item_of}
use indy_node.Auth.Role.{trustee}
use indy_node.Auth.Constraint.{
  Constraint, or_constraint, role_constraint, nil, cons, role_validation,
}
use indy_node.Auth.Constraint.Dict.{
  as_dict, as_dicts, create_role, role_from_dict, no_other_key, create_by_id, create_constraint,
  children_of, constraints_of, create_all, IsCreated, AreCreated, create_constraint-as_dict,
}

program : Unit {0}
unfolding as_dict as_dicts create_role role_from_dict no_other_key create_by_id create_constraint
    children_of constraints_of create_all item_of role_validation IsCreated AreCreated
program = tt

abbrev two_branches : Constraint
two_branches = or_constraint (
    cons
      (role_constraint (record {
        role = some trustee;
        sig_count = 1;
        need_to_be_owner = false;
        off_ledger_signature = none;
        metadata = Json.obj Fields.end;
      }))
      (cons
        (role_constraint (record {
          role = some "*";
          sig_count = 2;
          need_to_be_owner = true;
          off_ledger_signature = some true;
          metadata = Json.obj Fields.end;
        }))
        nil))

-- A list constraint with another key is a TypeError.
other_key_refused :
    create_constraint (
      Json.obj (
        Fields.field "constraint_id" (Json.str "AND") (
          Fields.field "auth_constraints"
            (Json.arr Items.nil)
            (Fields.field "metadata" (Json.obj Fields.end) Fields.end))))
    ≡ none
unfolding program
other_key_refused = refl

two_branches-IsCreated : IsCreated two_branches
unfolding program
two_branches-IsCreated = (refl, (refl, tt))

create_constraint-as_dict_example : create_constraint (as_dict two_branches) ≡ some two_branches
create_constraint-as_dict_example = create_constraint-as_dict two_branches two_branches-IsCreated

-- ===== src/Auth/Constraint/Created.antt =====
-- What `create_constraint` of indy_common/authorize/auth_constraints.py returns was accepted by the
-- constructors.
use indy_node.Base.{
  String, ℕ, Option, none, some, Bool, true, false, ◌≡◌, subst, Bool-cases, inl, inr, if◌then◌else◌,
  ◌==◌,
}
use indy_node.Base.Json.{Json, Items, Fields, item_of}
use indy_node.Auth.Constraint.{AuthConstraint, Constraint, Constraints, role_validation}
use indy_node.Auth.Constraint.Dict.{
  IsCreated, AreCreated, create_role, create_from, role_from_dict, and_of, or_of, no_other_key,
  create_by_id, cons_if, create_constraint, children_of, constraints_of, create_all,
}

abbrev IfCreated : Option Constraint → Type 0
IfCreated none = Unit
IfCreated (some c) = IsCreated c

abbrev IfAllCreated : Option Constraints → Type 0
IfAllCreated none = Unit
IfAllCreated (some cs) = AreCreated cs

role-Created : (c : AuthConstraint) → IfCreated (create_role c)
unfolding create_role IsCreated AreCreated
role-Created c = elim (Bool-cases (role_validation c)) [ inl e ↦ rw e e | inr e ↦ rw e tt ]

from-Created :
    (role : Option (Option String)) (n : Option ℕ) (owner : Option Bool)
    (off : Option (Option Bool)) (metadata : Json)
    → IfCreated (create_from role n owner off metadata)
from-Created (some r) (some n) (some o) (some f) m = role-Created _
from-Created none n owner off m = tt
from-Created (some r) none owner off m = tt
from-Created (some r) (some n) none off m = tt
from-Created (some r) (some n) (some o) none m = tt

and-Created : (b : Bool) (cs : Option Constraints) → IfAllCreated cs → IfCreated (and_of b cs)
unfolding IsCreated AreCreated
and-Created true (some cs) h = h
and-Created true none h = tt
and-Created false cs h = tt

or-Created : (b : Bool) (cs : Option Constraints) → IfAllCreated cs → IfCreated (or_of b cs)
unfolding IsCreated AreCreated
or-Created true (some cs) h = h
or-Created true none h = tt
or-Created false cs h = tt

if-Created :
    (b : Bool) (x y : Option Constraint)
    → IfCreated x
    → IfCreated y
    → IfCreated (if b then x else y)
if-Created true x y h k = h
if-Created false x y h k = k

by_id-Created :
    (id : Option Json) (fs : Fields) (children : Option Constraints)
    → IfAllCreated children
    → IfCreated (create_by_id id fs children)
unfolding create_by_id role_from_dict IsCreated AreCreated
by_id-Created (some (Json.str id)) fs children h = if-Created (id == "FORBIDDEN") _ _ tt (
    if-Created (id == "ROLE") _ _ (from-Created _ _ _ _ _) (
      if-Created (id == "AND") _ _ (and-Created (no_other_key fs) children h)
        (if-Created (id == "OR") _ _ (or-Created (no_other_key fs) children h) tt)))
by_id-Created none fs children h = tt
by_id-Created (some Json.null) fs children h = tt
by_id-Created (some (Json.bool b)) fs children h = tt
by_id-Created (some (Json.num n)) fs children h = tt
by_id-Created (some (Json.arr items)) fs children h = tt
by_id-Created (some (Json.obj gs)) fs children h = tt

cons-Created :
    (c : Option Constraint) (cs : Option Constraints)
    → IfCreated c
    → IfAllCreated cs
    → IfAllCreated (cons_if c cs)
unfolding IsCreated AreCreated
cons-Created none cs h k = tt
cons-Created (some c) none h k = tt
cons-Created (some c) (some cs) h k = (h, k)

if-AllCreated :
    (b : Bool) (x y : Option Constraints)
    → IfAllCreated x
    → IfAllCreated y
    → IfAllCreated (if b then x else y)
if-AllCreated true x y h k = h
if-AllCreated false x y h k = k

mutual
  unfolding create_constraint children_of constraints_of create_all IsCreated AreCreated

  created : (j : Json) → IfCreated (create_constraint j)
  created (Json.obj fs) =
      by_id-Created (item_of "constraint_id" fs) fs (children_of fs) (children fs)
  created Json.null = tt
  created (Json.bool b) = tt
  created (Json.num n) = tt
  created (Json.str s) = tt
  created (Json.arr items) = tt

  children : (fs : Fields) → IfAllCreated (children_of fs)
  children Fields.end = tt
  children (Fields.field k v fs) =
      if-AllCreated (k == "auth_constraints") _ _ (listed v) (children fs)

  listed : (j : Json) → IfAllCreated (constraints_of j)
  listed (Json.arr items) = all_created items
  listed Json.null = tt
  listed (Json.bool b) = tt
  listed (Json.num n) = tt
  listed (Json.str s) = tt
  listed (Json.obj fs) = tt

  all_created : (items : Items) → IfAllCreated (create_all items)
  all_created Items.nil = tt
  all_created (Items.cons j js) =
      cons-Created (create_constraint j) (create_all js) (created j) (all_created js)

pub create_constraint-IsCreated :
    (j : Json) (c : Constraint) → create_constraint j ≡ some c → IsCreated c
create_constraint-IsCreated j c e = subst IfCreated e (created j)

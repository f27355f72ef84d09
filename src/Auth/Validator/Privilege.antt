-- ===== src/Auth/Validator/Privilege.antt =====
-- Who can change roles and freeze ledgers under the default rules and the local policy.
use indy_node.Base.{
  ◌≤◌, String, Option, some, ◌≡◌, ◌≢◌, refl, Bool, false, List, ◌∷◌, inl, inr, ◌⊎◌, arith, length,
  truthy, Bool-cases, eq_iff,
}
use indy_node.Auth.Role.{trustee, steward}
use indy_node.Auth.Action.{Action}
use indy_node.Auth.Constraint.{
  AuthConstraint, Constraint, role_constraint, or_constraint, cons, nil,
}
use indy_node.Auth.Request.{Request}
use indy_node.Auth.Authorizer.Grants.{Grants, RoleGrants, by_role, by_any, any_here, any_later}
use indy_node.Auth.Authorizer.Quorum.{
  Signed, holders, get_sig_count-holders, get_sig_count-single, get_sig_count-Signed,
}
use indy_node.Auth.Validator.{local_auth_policy, authorised, get_auth_constraint, validate}
use indy_node.Auth.Validator.Decision.{validate_iff}
use mathlib.Core.Path.{subst}
use indy_node.Auth.Rules.{
  auth_map, one_trustee_constraint, steward_or_trustee_constraint, auth_constraint,
  edit_frozen_ledgers, three_trustee_constraint,
}
use indy_node.Auth.Rules.Table.{
  RoleName, edit_rule, role_edit, local_auth_constraint-edit_role, local_auth_constraint-frozen,
}

-- The changes of a role that a steward may make too.
abbrev pub StewardMay : RoleName → RoleName → Type 0
StewardMay RoleName.network_monitor_name RoleName.endorser_name = Unit
StewardMay RoleName.network_monitor_name RoleName.identity_owner_name = Unit
StewardMay RoleName.identity_owner_name RoleName.endorser_name = Unit
StewardMay RoleName.identity_owner_name RoleName.network_monitor_name = Unit
StewardMay _ _ = ⊥

pub trustee_texts : (trustee ≢ "") × (trustee ≢ "*")
trustee_texts =
    (λ e. ground (arith, eq_iff trustee "", e), λ e. ground (arith, eq_iff trustee "*", e))

steward_texts : (steward ≢ "") × (steward ≢ "*")
steward_texts =
    (λ e. ground (arith, eq_iff steward "", e), λ e. ground (arith, eq_iff steward "*", e))

module _ (role_of : String → Option String) (q : Request) (a : Action) where
  abbrev pub SignedBy : String → Type 0
  SignedBy role = (did : String) × Signed q did × (role_of did ≡ some role)

  role_grants :
      {c : AuthConstraint} → Grants role_of q a (role_constraint c) → RoleGrants role_of q a c
  role_grants (by_role g e) = g

  one_signed :
      (role : String)
      → role ≢ ""
      → role ≢ "*"
      → Grants role_of q a (auth_constraint (some role) 1 false)
      → SignedBy role
  one_signed role h k g = get_sig_count-Signed role_of q role h k ((role_grants g).enough)

  either_signed :
      {c d : Constraint}
      → Grants role_of q a (or_constraint (cons c (cons d nil)))
      → Grants role_of q a c ⊎ Grants role_of q a d
  either_signed (by_any (any_here g)) = inl g
  either_signed (by_any (any_later (any_here g))) = inr g
  either_signed (by_any (any_later (any_later g))) = elim g [ ]

  pub by_trustee : Grants role_of q a one_trustee_constraint → SignedBy trustee
  by_trustee g = one_signed trustee trustee_texts.0 trustee_texts.1 g

  by_either : Grants role_of q a steward_or_trustee_constraint → SignedBy trustee ⊎ SignedBy steward
  by_either g = elim (either_signed g) [
    | inl s ↦ inr (one_signed steward steward_texts.0 steward_texts.1 s)
    | inr t ↦ inl (by_trustee t)
  ]

  -- A trustee signed, or a steward did and the change is one that a steward may make.
  abbrev pub RoleChangeSigned : RoleName → RoleName → Type 0
  RoleChangeSigned from to = SignedBy trustee ⊎ (StewardMay from to × SignedBy steward)

  with_steward :
      (from to : RoleName)
      → StewardMay from to
      → Grants role_of q a steward_or_trustee_constraint
      → RoleChangeSigned from to
  with_steward from to m g = elim (by_either g) [ inl t ↦ inl t | inr s ↦ inr (m, s) ]

  edit_rule-RoleChangeSigned :
      (from to : RoleName)
      → from ≢ to
      → Grants role_of q a (edit_rule from to)
      → RoleChangeSigned from to
  edit_rule-RoleChangeSigned RoleName.trustee_name RoleName.trustee_name n g = absurd (n refl)
  edit_rule-RoleChangeSigned RoleName.trustee_name RoleName.steward_name n g = inl (by_trustee g)
  edit_rule-RoleChangeSigned RoleName.trustee_name RoleName.endorser_name n g = inl (by_trustee g)
  edit_rule-RoleChangeSigned RoleName.trustee_name RoleName.network_monitor_name n g =
      inl (by_trustee g)
  edit_rule-RoleChangeSigned RoleName.trustee_name RoleName.identity_owner_name n g =
      inl (by_trustee g)
  edit_rule-RoleChangeSigned RoleName.steward_name RoleName.trustee_name n g = inl (by_trustee g)
  edit_rule-RoleChangeSigned RoleName.steward_name RoleName.steward_name n g = absurd (n refl)
  edit_rule-RoleChangeSigned RoleName.steward_name RoleName.endorser_name n g = inl (by_trustee g)
  edit_rule-RoleChangeSigned RoleName.steward_name RoleName.network_monitor_name n g =
      inl (by_trustee g)
  edit_rule-RoleChangeSigned RoleName.steward_name RoleName.identity_owner_name n g =
      inl (by_trustee g)
  edit_rule-RoleChangeSigned RoleName.endorser_name RoleName.trustee_name n g = inl (by_trustee g)
  edit_rule-RoleChangeSigned RoleName.endorser_name RoleName.steward_name n g = inl (by_trustee g)
  edit_rule-RoleChangeSigned RoleName.endorser_name RoleName.endorser_name n g = absurd (n refl)
  edit_rule-RoleChangeSigned RoleName.endorser_name RoleName.network_monitor_name n g =
      inl (by_trustee g)
  edit_rule-RoleChangeSigned RoleName.endorser_name RoleName.identity_owner_name n g =
      inl (by_trustee g)
  edit_rule-RoleChangeSigned RoleName.network_monitor_name RoleName.trustee_name n g =
      inl (by_trustee g)
  edit_rule-RoleChangeSigned RoleName.network_monitor_name RoleName.steward_name n g =
      inl (by_trustee g)
  edit_rule-RoleChangeSigned RoleName.network_monitor_name RoleName.endorser_name n g =
      with_steward RoleName.network_monitor_name RoleName.endorser_name tt g
  edit_rule-RoleChangeSigned RoleName.network_monitor_name RoleName.network_monitor_name n g =
      absurd (n refl)
  edit_rule-RoleChangeSigned RoleName.network_monitor_name RoleName.identity_owner_name n g =
      with_steward RoleName.network_monitor_name RoleName.identity_owner_name tt g
  edit_rule-RoleChangeSigned RoleName.identity_owner_name RoleName.trustee_name n g =
      inl (by_trustee g)
  edit_rule-RoleChangeSigned RoleName.identity_owner_name RoleName.steward_name n g =
      inl (by_trustee g)
  edit_rule-RoleChangeSigned RoleName.identity_owner_name RoleName.endorser_name n g =
      with_steward RoleName.identity_owner_name RoleName.endorser_name tt g
  edit_rule-RoleChangeSigned RoleName.identity_owner_name RoleName.network_monitor_name n g =
      with_steward RoleName.identity_owner_name RoleName.network_monitor_name tt g
  edit_rule-RoleChangeSigned RoleName.identity_owner_name RoleName.identity_owner_name n g =
      absurd (n refl)

module _ (role_of : String → Option String) (state : String → Option String)
    (deserialize : String → Constraint) (q : Request) (rest : List Action) where
  abbrev Authorised : Action → Type 0
  Authorised a =
      validate role_of state deserialize local_auth_policy auth_map q (a ∷ rest) ≡ authorised

  edit_rule-Grants :
      (from to : RoleName) (is_owner : Bool)
      → Authorised (role_edit from to is_owner)
      → Grants role_of q (role_edit from to is_owner) (edit_rule from to)
  unfolding get_auth_constraint
  edit_rule-Grants from to o h =
      let (c, e, g) =
        (validate_iff role_of state deserialize local_auth_policy auth_map q (role_edit from to o)
            rest).0
          h in
      let same : c ≡ edit_rule from to = cc (e, local_auth_constraint-edit_role from to o) in
      subst (Grants role_of q (role_edit from to o)) same g

  -- Under the default rules and the local policy, a request that changes a role to another one is
  -- authorised only if a trustee signed it, or a steward signed it and the change is between a
  -- network monitor and an identity owner, or from one of these to an endorser.
  pub role_change_signed :
      (from to : RoleName) (is_owner : Bool)
      → from ≢ to
      → Authorised (role_edit from to is_owner)
      → RoleChangeSigned role_of q (role_edit from to is_owner) from to
  role_change_signed from to o n h =
      edit_rule-RoleChangeSigned role_of q (role_edit from to o) from to n
        (edit_rule-Grants from to o h)

  frozen_rule-Grants :
      Authorised edit_frozen_ledgers → Grants role_of q edit_frozen_ledgers three_trustee_constraint
  unfolding get_auth_constraint
  frozen_rule-Grants h =
      let (c, e, g) =
        (validate_iff role_of state deserialize local_auth_policy auth_map q edit_frozen_ledgers
            rest).0
          h in
      let same : c ≡ three_trustee_constraint = cc (e, local_auth_constraint-frozen) in
      subst (Grants role_of q edit_frozen_ledgers) same g

  -- Under the default rules and the local policy, ledgers are frozen only by a multi-signature that
  -- at least three trustees signed.
  pub freeze_quorum :
      Authorised edit_frozen_ledgers
      → (truthy q.signature ≡ false) × (3 ≤ length (holders role_of trustee q.signatures))
  freeze_quorum h =
      let enough = (role_grants role_of q edit_frozen_ledgers (frozen_rule-Grants h)).enough in
      elim (Bool-cases (truthy q.signature)) [
        | inl s ↦
            absurd (omega (arith, enough, get_sig_count-single role_of q (some trustee) false s))
        | inr s ↦ (
          s,
          omega (
            arith,
            enough,
            get_sig_count-holders role_of q trustee s trustee_texts.0 trustee_texts.1,
          ),
        )
      ]

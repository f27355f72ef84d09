-- ===== src/Identity/Nym/Permission.antt =====
-- Who can change the role of a nym that is on the ledger: nym_handler.py under
-- indy_node/server/request_handlers/domain_req_handlers with the default rules of
-- indy_common/authorize/auth_map.py.
use indy_node.Base.{
  String, Option, some, Bool, not, ◌&&◌, List, [], ◌∷◌, ◌≡◌, ◌≢◌, refl, subst, Bool-cases, inl, inr,
  sym, ◌∙◌, arith, is_none, if◌then◌else◌,
}
use indy_node.Auth.Constraint.{Constraint}
use indy_node.Auth.Action.{Action}
use indy_node.Auth.Request.{Request}
use indy_node.Auth.Rules.{auth_map}
use indy_node.Auth.Rules.Table.{RoleName, code, role_edit}
use indy_node.Auth.Validator.{
  Validation, authorised, unauthorised, not_allowed, bad_action_id, no_action, local_auth_policy,
  validate,
}
use indy_node.Auth.Validator.Privilege.{RoleChangeSigned, role_change_signed}
use indy_node.Identity.Cache.{NymData}
use indy_node.Identity.Nym.{
  Codec, NymOperation, NymCheck, passed, next, nothing_to_update, permit, key_check, is_owner_of,
  validate_existing_nym, additional_dynamic_validation,
}

permit-passed : (v : Validation) → v ≢ no_action → permit v ≡ passed → v ≡ authorised
permit-passed authorised n h = refl
permit-passed (unauthorised r) n h = absurd (ground (arith, h))
permit-passed not_allowed n h = absurd (ground (arith, h))
permit-passed bad_action_id n h = absurd (ground (arith, h))
permit-passed no_action n h = absurd (n refl)

pub next-first : (c d : NymCheck) → next c d ≡ passed → c ≡ passed
next-first passed d h = refl
next-first (NymCheck.refused r) d h = absurd (ground (arith, h))
next-first (NymCheck.denied v) d h = absurd (ground (arith, h))
next-first NymCheck.crashed d h = absurd (ground (arith, h))

module _ (codec : Codec) (nym_of : String → Option NymData) (role_of state : String → Option String)
    (deserialize : String → Constraint) (q : Request) where
  abbrev authorise : Request → List Action → Validation
  authorise = validate role_of state deserialize local_auth_policy auth_map

  some_action : (a : Action) → authorise q (a ∷ []) ≢ no_action
  unfolding validate
  some_action a e = ground (arith, e)

  dynamic-existing :
      (dest : String) (op : NymOperation) (d : NymData)
      → op.dest ≡ some dest
      → nym_of dest ≡ some d
      → additional_dynamic_validation codec nym_of authorise q op
        ≡ validate_existing_nym codec nym_of authorise q dest op d
  unfolding additional_dynamic_validation
  dynamic-existing dest op d e f = ground (arith, e, f)

  existing-role :
      (dest : String) (op : NymOperation) (d : NymData)
      → validate_existing_nym codec nym_of authorise q dest op d ≡ passed
      → key_check codec nym_of authorise q "role" d.role op.role
          (is_owner_of codec nym_of authorise q dest)
        ≡ passed
  unfolding validate_existing_nym
  existing-role dest op d h = elim (Bool-cases (is_none op.version)) [
    | inl e ↦
        let o = is_owner_of codec nym_of authorise q dest in
        let later = next (key_check codec nym_of authorise q "verkey" d.verkey op.verkey o) (
          if is_none op.role && (is_none op.verkey && not o)
          then NymCheck.refused nothing_to_update
          else passed) in
        let all : next (key_check codec nym_of authorise q "role" d.role op.role o) later ≡ passed =
          ground (arith, e, h) in
        next-first (key_check codec nym_of authorise q "role" d.role op.role o) later all
    | inr e ↦ absurd (ground (arith, e, h))
  ]

  role_key-authorised :
      (from to : RoleName) (o : Bool)
      → key_check codec nym_of authorise q "role" (code from) (some (code to)) o ≡ passed
      → authorise q (role_edit from to o ∷ []) ≡ authorised
  unfolding key_check
  role_key-authorised from to o h = permit-passed _ (some_action (role_edit from to o)) h

  -- A request for a nym that is on the ledger, which sets its role to another one, passes the
  -- dynamic validation under the default rules and the local policy only if a trustee signed it, or
  -- a steward signed it and the change is between a network monitor and an identity owner, or from
  -- one of these to an endorser.
  pub role_change_guarded :
      (from to : RoleName) (dest : String) (op : NymOperation) (d : NymData)
      → from ≢ to
      → op.dest ≡ some dest
      → nym_of dest ≡ some d
      → d.role ≡ code from
      → op.role ≡ some (code to)
      → additional_dynamic_validation codec nym_of authorise q op ≡ passed
      → RoleChangeSigned role_of q
          (role_edit from to (is_owner_of codec nym_of authorise q dest))
          from
          to
  role_change_guarded from to dest op d n eo ed er et h =
      let o = is_owner_of codec nym_of authorise q dest in
      let first = existing-role dest op d (sym (dynamic-existing dest op d eo ed) ∙ h) in
      let with_old =
        subst (λ r. key_check codec nym_of authorise q "role" r op.role o ≡ passed) er first in
      let with_new =
        subst (λ r. key_check codec nym_of authorise q "role" (code from) r o ≡ passed) et
          with_old in
      role_change_signed role_of state deserialize q [] from to o n
        (role_key-authorised from to o with_new)

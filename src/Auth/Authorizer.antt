-- ===== src/Auth/Authorizer.antt =====
-- indy_common/authorize/authorizer.py. `role_of` is `_get_role`: the role that the cache holds for
-- a DID, uncommitted writes included; `none` where the cache raises KeyError, `some ""` for an
-- identity owner.
pub mod Grants
pub mod Quorum
use indy_node.Base.{
  ℕ, ◌+◌, String, Option, none, some, Bool, true, false, ◌&&◌, ◌||◌, not, List, [], ◌∷◌, length,
  has_key, ltb, leb, num_eq, if◌then◌else◌, opt_eq, is_none, truthy, ◌==◌,
}
use indy_node.Auth.Role.{endorser, trustee, steward, get_named_role, member}
use indy_node.Auth.Action.{Action, is_owner, field_of, txn_type_of}
use indy_node.Auth.Constraint.{
  AuthConstraint, Constraint, Constraints, forbidden, role_constraint, and_constraint,
  or_constraint, nil, cons, off_ledger,
}
use indy_node.Auth.Request.{Request}
use indy_node.Auth.Verdict.{
  Reason, Fails, Verdict, Result, only_owner_touches, only_owner_edits, not_on_ledger,
  author_must_sign, not_enough_signatures, bad_endorser_role, endorser_must_sign,
  endorser_field_required, action_is_forbidden, rule_failed, no_fails, append_fail, accepted,
  refused, ok, raised, and_then, run_authorizers,
}

abbrev pub is_empty {ℓ} : {A : Type ℓ} → List A → Bool
is_empty [] = true
is_empty (x ∷ xs) = false

-- A role from the cache against the role of a constraint, where `none` stands for an identity
-- owner.
unfoldable pub is_role_accepted : Option String → Option String → Bool
is_role_accepted none constraint_role = false
is_role_accepted (some role) constraint_role =
    let r = if role == "" then none else some role in
    opt_eq r constraint_role || opt_eq constraint_role (some "*")

-- `role in NO_NEED_FOR_ENDORSER_ROLES`
unfoldable pub is_privileged : Option String → Bool
is_privileged role = member role (some endorser ∷ some trustee ∷ some steward ∷ [])

-- Step 1: an endorser other than the author has signed. An endorser "" counts as none.
unfoldable pub endorser_signed : Request → Bool
endorser_signed request = elim request.endorser [
  | none ↦ true
  | some e ↦
      if e == request.identifier || e == ""
      then true
      else not (is_empty request.signatures) && has_key e request.signatures
]

module _ (role_of : String → Option String) where
  -- The loop over `request.signatures.items()`.
  unfoldable pub count_signers : Option String → Bool → ℕ → List (String × String) → ℕ
  count_signers role off sig_count [] = sig_count
  count_signers role off sig_count ((identifier, _) ∷ rest) =
      let accepts = off || is_role_accepted (role_of identifier) role in
      count_signers role off (if accepts then sig_count + 1 else sig_count) rest

  unfoldable pub get_sig_count : Request → Option String → Bool → ℕ
  get_sig_count request role off =
      if truthy request.signature
      then (if off || is_role_accepted (role_of request.identifier) role then 1 else 0)
      else if is_empty request.signatures
      then 0
      else if opt_eq role (some "*")
      then length request.signatures
      else count_signers role off 0 request.signatures

  unfoldable pub is_owner_accepted : AuthConstraint → Action → Bool
  is_owner_accepted c action = not (c.need_to_be_owner && not (is_owner action))

  unfoldable pub is_sig_count_accepted : Request → AuthConstraint → Bool
  is_sig_count_accepted request c = leb c.sig_count (get_sig_count request c.role (off_ledger c))

  -- `RolesAuthorizer.authorize`
  unfoldable pub authorize_role : Request → Action → AuthConstraint → Verdict
  unfolding is_owner_accepted is_sig_count_accepted
  authorize_role request action c =
      let who = get_named_role (role_of request.identifier) in
      if not (is_owner_accepted c action)
      then (if not (field_of action == "*")
          then refused (only_owner_touches who (field_of action))
          else refused (only_owner_edits who (txn_type_of action)))
      else if ltb 0 c.sig_count && (not (off_ledger c) && is_none (role_of request.identifier))
      then refused (not_on_ledger request.identifier)
      else if ltb 0 c.sig_count
          && (not (is_empty request.signatures)
              && not (has_key request.identifier request.signatures))
      then refused author_must_sign
      else if not (is_sig_count_accepted request c)
      then refused (not_enough_signatures c.role)
      else accepted

  unfoldable pub check_endorser_role : Request → Verdict
  check_endorser_role request = elim request.endorser [
    | none ↦ accepted
    | some e ↦ if opt_eq (role_of e) (some endorser) then accepted else refused bad_endorser_role
  ]

  -- Step 4: the loop that looks for a privileged signer.
  unfoldable pub has_privileged_sig : List (String × String) → Bool
  has_privileged_sig [] = false
  has_privileged_sig ((idr, _) ∷ rest) =
      let later = has_privileged_sig rest in if is_privileged (role_of idr) then true else later

  -- Step 3 reads the role "" as `None`, which is not privileged either.
  abbrev pub author_role : Request → Option String
  author_role request =
      if opt_eq (role_of request.identifier) (some "") then none else role_of request.identifier

  unfoldable pub check_endorser_field_presence : Request → Verdict
  unfolding endorser_signed
  check_endorser_field_presence request =
      if not (endorser_signed request)
      then refused endorser_must_sign
      else if is_empty request.signatures
      then accepted
      else if not
          (ltb 1 (length request.signatures) || not (has_key request.identifier request.signatures))
      then accepted
      else if is_privileged (author_role request)
      then accepted
      else if not (has_privileged_sig request.signatures)
      then accepted
      else if is_none request.endorser
      then refused endorser_field_required
      else accepted

  -- `EndorserAuthorizer.authorize`
  unfoldable pub authorize_endorser : Request → Verdict
  authorize_endorser request =
      and_then (check_endorser_role request) (check_endorser_field_presence request)

  -- `CompositeAuthorizer.authorize` with the authorizers that `register_default_authorizers`
  -- registers for each kind of constraint, the loop of `AndAuthorizer`, and that of `OrAuthorizer`.
  unfoldable mutual
    pub authorize : Request → Action → Constraint → Result Verdict
    authorize request action forbidden = run_authorizers (ok (refused action_is_forbidden) ∷ [])
    authorize request action (role_constraint c) =
        run_authorizers
          (ok (authorize_role request action c) ∷ ok (authorize_endorser request) ∷ [])
    authorize request action (and_constraint cs) =
        run_authorizers (authorize_and request action cs ∷ [])
    authorize request action (or_constraint cs) =
        run_authorizers (authorize_or request action cs 0 no_fails cs ∷ [])

    pub authorize_and : Request → Action → Constraints → Result Verdict
    authorize_and request action nil = ok accepted
    authorize_and request action (cons c cs) = elim (authorize request action c) [
      | ok v ↦ elim v [ accepted ↦ authorize_and request action cs | refused r ↦ raised r ]
      | raised r ↦ raised r
    ]

    pub authorize_or : Request → Action → Constraints → ℕ → Fails → Constraints → Result Verdict
    authorize_or request action whole successes fails nil =
        if num_eq successes 0 then raised (rule_failed whole fails) else ok accepted
    authorize_or request action whole successes fails (cons c cs) =
        elim (authorize request action c) [
          | ok v ↦ authorize_or request action whole (successes + 1) fails cs
          | raised r ↦ authorize_or request action whole successes (append_fail fails c r) cs
        ]

-- ===== src/Revocation/Handler/Guarded.antt =====
-- Who can write an entry: revoc_reg_entry_handler.py with the default rules of
-- indy_common/authorize/auth_map.py.
use indy_node.Base.{
  String, Option, none, some, Bool, true, false, not, List, [], ◌∷◌, ◌==◌, is_none, ◌≡◌, refl, sym,
  ◌∙◌, arith, eq_iff, Bool-cases, Option-cases, inl, inr, subst,
}
use indy_node.Auth.Action.{
  Action, is_owner, get_action_id, split_action_id, auth_action_add, auth_action_edit,
}
use indy_node.Auth.Constraint.{Constraint}
use indy_node.Auth.Request.{Request}
use indy_node.Auth.Rules.{
  auth_map, owner_constraint, endorser_or_steward_or_trustee_owner_constraint,
}
use indy_node.Auth.Strategy.{
  local_auth_constraint, find_auth_constraint_key, is_accepted_action_id, accepts_parts,
}
use indy_node.Auth.Authorizer.Grants.{Grants, by_role, by_any, any_here, any_later}
use indy_node.Auth.Validator.{
  Validation, authorised, unauthorised, not_allowed, bad_action_id, no_action, local_auth_policy,
  validate, get_auth_constraint,
}
use indy_node.Auth.Validator.Decision.{validate_iff}
use indy_node.Revocation.Strategy as S
use indy_node.Revocation.Strategy.{RevocEntry, Strategy, State, valid, invalid}
use indy_node.Revocation.Strategy.Accepts.{ValidEntry, validate_entry_iff}
use indy_node.Revocation.Handler.{
  get_revocation_strategy, author_of, EntryCheck, passed, current_entry, entry_action,
  strategy_check, after_authorisation, validate_entry,
}

abbrev rule_for : Bool → Constraint
rule_for true = owner_constraint
rule_for false = endorser_or_steward_or_trustee_owner_constraint

rule_of_entry :
    (exists owner : Bool)
    → local_auth_constraint auth_map (get_action_id (entry_action exists owner))
      ≡ some (some (rule_for exists))
unfolding local_auth_constraint find_auth_constraint_key is_accepted_action_id accepts_parts
    get_action_id split_action_id auth_action_edit auth_action_add entry_action
rule_of_entry true true = refl
rule_of_entry true false = refl
rule_of_entry false true = refl
rule_of_entry false false = refl

module _ (role_of state_of : String → Option String) (deserialize : String → Constraint)
    (q : Request) where
  abbrev pub authorise : Request → List Action → Validation
  authorise = validate role_of state_of deserialize local_auth_policy auth_map

  rule-owner :
      (exists : Bool) (a : Action) → Grants role_of q a (rule_for exists) → is_owner a ≡ true
  rule-owner true a (by_role g _) = g.owner refl
  rule-owner false a (by_any (any_here (by_role g _))) = g.owner refl
  rule-owner false a (by_any (any_later (any_here (by_role g _)))) = g.owner refl
  rule-owner false a (by_any (any_later (any_later (any_here (by_role g _))))) = g.owner refl
  rule-owner false a (by_any (any_later (any_later (any_later g)))) = elim g [ ]

  owner-authorised :
      (exists owner : Bool)
      → authorise q (entry_action exists owner ∷ []) ≡ authorised
      → is_owner (entry_action exists owner) ≡ true
  unfolding get_auth_constraint
  owner-authorised exists owner h =
      let a = entry_action exists owner in
      let (c, e, g) =
        (validate_iff role_of state_of deserialize local_auth_policy auth_map q a []).0 h in
      let same : c ≡ rule_for exists = cc (e, rule_of_entry exists owner) in
      rule-owner exists a (subst (Grants role_of q a) same g)

  owner-action : (exists owner : Bool) → is_owner (entry_action exists owner) ≡ owner
  unfolding entry_action auth_action_edit auth_action_add
  owner-action true owner = refl
  owner-action false owner = refl

  after-passed :
      (v : Validation) (check : EntryCheck)
      → after_authorisation v check ≡ passed
      → (v ≡ authorised) × (check ≡ passed)
  after-passed authorised check h = (refl, h)
  after-passed no_action check h = absurd (ground (arith, h))
  after-passed (unauthorised r) check h = absurd (ground (arith, h))
  after-passed not_allowed check h = absurd (ground (arith, h))
  after-passed bad_action_id check h = absurd (ground (arith, h))

  strategy-passed :
      (s : Option Strategy) (current : Option RevocEntry) (entry : RevocEntry)
      → strategy_check s current entry ≡ passed
      → (t : Strategy) × (s ≡ some t) × ValidEntry t current entry
  strategy-passed none current entry h = absurd (ground (arith, h))
  strategy-passed (some t) current entry h =
      (t, refl, (validate_entry_iff t entry current).0 (settled (S.validate t current entry) h))
    where
      settled :
          (c : S.Check)
          → (elim c [ valid ↦ passed | invalid r ↦ EntryCheck.refused r ]) ≡ passed
          → c ≡ valid
      settled valid h = refl
      settled (invalid r) h = absurd (ground (arith, h))

  -- Under the default rules and the local policy, an entry passes the dynamic validation only if
  -- the state has the definition of the registry, with a known issuance type; if the author of the
  -- request is the one that the id of the registry begins with; and if the entry is valid after the
  -- last one, by the strategy of that type.
  pub entry_guarded :
      (issuance_at : String → Option String) (state : State) (entry : RevocEntry)
      → validate_entry issuance_at authorise state q entry ≡ passed
      → (author_of entry.revoc_reg_def_id ≡ q.identifier)
        × ((typ : String) × (s : Strategy) × (issuance_at entry.revoc_reg_def_id ≡ some typ)
            × (get_revocation_strategy typ ≡ some s)
            × ValidEntry s (current_entry state entry.revoc_reg_def_id) entry)
  unfolding validate_entry
  entry_guarded issuance_at state entry h =
      let id = entry.revoc_reg_def_id in
      let exists = not (is_none (current_entry state id)) in
      let owner = author_of id == q.identifier in
      elim (Bool-cases (id == "")) [
        | inl e ↦ absurd (ground (arith, rw (e, validate_entry) at h))
        | inr e ↦ elim (Option-cases (issuance_at id)) [
          | inl n ↦ absurd (ground (arith, rw (e, n, validate_entry) at h))
          | inr (typ, f) ↦
              let (allowed, checked) = after-passed _ _ (rw (e, f, validate_entry) at h) in
              let (s, known, ok) = strategy-passed _ (current_entry state id) entry checked in
              let owns = sym (owner-action exists owner) ∙ owner-authorised exists owner allowed in
              ((eq_iff (author_of id) q.identifier).0 owns, (typ, s, f, known, ok))
        ]
      ]

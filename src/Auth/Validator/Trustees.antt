-- ===== src/Auth/Validator/Trustees.antt =====
-- Actions whose default rule asks for one trustee, and those without a rule, under the local
-- policy.
use indy_node.Base.{String, Option, none, some, ◌≡◌, subst, List, ◌∷◌}
use indy_node.Auth.Role.{trustee}
use indy_node.Auth.Action.{Action, get_action_id}
use indy_node.Auth.Constraint.{Constraint}
use indy_node.Auth.Request.{Request}
use indy_node.Auth.Authorizer.Grants.{Grants}
use indy_node.Auth.Rules.{auth_map, one_trustee_constraint}
use indy_node.Auth.Strategy.{local_auth_constraint}
use indy_node.Auth.Validator.{local_auth_policy, authorised, get_auth_constraint, validate}
use indy_node.Auth.Validator.Decision.{validate_iff}
use indy_node.Auth.Validator.Privilege.{SignedBy, by_trustee}

module _ (role_of : String → Option String) (state : String → Option String)
    (deserialize : String → Constraint) (q : Request) (rest : List Action) (a : Action)
    (allowed : validate role_of state deserialize local_auth_policy auth_map q (a ∷ rest)
      ≡ authorised) where
  pub one_trustee-SignedBy :
      local_auth_constraint auth_map (get_action_id a) ≡ some (some one_trustee_constraint)
      → SignedBy role_of q a trustee
  unfolding get_auth_constraint
  one_trustee-SignedBy rule =
      let (c, e, g) =
        (validate_iff role_of state deserialize local_auth_policy auth_map q a rest).0 allowed in
      let same : c ≡ one_trustee_constraint = cc (e, rule) in
      by_trustee role_of q a (subst (Grants role_of q a) same g)

  pub rule_needed : local_auth_constraint auth_map (get_action_id a) ≡ some none → ⊥
  unfolding get_auth_constraint
  rule_needed no_rule =
      let (c, e, g) =
        (validate_iff role_of state deserialize local_auth_policy auth_map q a rest).0 allowed in
      cc (e, no_rule)

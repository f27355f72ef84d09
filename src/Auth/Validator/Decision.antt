-- ===== src/Auth/Validator/Decision.antt =====
-- What `WriteRequestValidator.validate` decides, for every rule set and both policies.
use indy_node.Base.{String, Option, none, some, ◌≡◌, ◌↔◌, List, ◌∷◌, inl, inr, Option-cases, arith}
use indy_node.Auth.Action.{Action, get_action_id}
use indy_node.Auth.Constraint.{Constraint}
use indy_node.Auth.Request.{Request}
use indy_node.Auth.Authorizer.Grants.{Grants}
use indy_node.Auth.Authorizer.Grants.Tree.{authorize_iff, authorize_settles}
use indy_node.Auth.Strategy.{AuthMap}
use indy_node.Auth.Validator.{Policy, authorised, get_auth_constraint, validate}

module _ (role_of : String → Option String) (state : String → Option String)
    (deserialize : String → Constraint) (policy : Policy) (auth_map : AuthMap) (q : Request)
    (action : Action) (rest : List Action) where
  abbrev rule : Option (Option Constraint)
  rule = get_auth_constraint state deserialize policy auth_map (get_action_id action)

  validate-Grants :
      validate role_of state deserialize policy auth_map q (action ∷ rest) ≡ authorised
      → (c : Constraint) × (rule ≡ some (some c)) × Grants role_of q action c
  unfolding validate
  validate-Grants h = elim (Option-cases rule) [
    | inl n ↦ let e = rw (n, validate) at h in absurd (ground (arith, e))
    | inr (none, p) ↦ let e = rw (p, validate) at h in absurd (ground (arith, e))
    | inr (some c, p) ↦ elim (authorize_settles role_of q action c) [
      | inl a ↦ (c, p, (authorize_iff role_of q action c).0 a)
      | inr (r, a) ↦ let e = rw (p, a, validate) at h in absurd (ground (arith, e))
    ]
  ]

  Grants-validate :
      ((c : Constraint) × (rule ≡ some (some c)) × Grants role_of q action c)
      → validate role_of state deserialize policy auth_map q (action ∷ rest) ≡ authorised
  unfolding validate
  Grants-validate (c, p, g) = rw (p, validate) (rw ((authorize_iff role_of q action c).1 g))

  -- A request with a first action is authorised exactly when the strategy finds a rule for that
  -- action and the request meets the rule; the actions behind it play no part.
  pub validate_iff :
      (validate role_of state deserialize policy auth_map q (action ∷ rest) ≡ authorised)
      ↔ ((c : Constraint) × (rule ≡ some (some c)) × Grants role_of q action c)
  validate_iff = (validate-Grants, Grants-validate)

-- ===== src/Auth/Authorizer/Grants/Roles.antt =====
-- `RolesAuthorizer.authorize` decides `RoleGrants`.
use indy_node.Base.{
  ◌<◌, String, Option, ◌≡◌, ◌≢◌, refl, false, List, [], ◌∷◌, arith, has_key, is_none, ltb,
  Bool-cases, Option-cases, ◌&&◌, ◌↔◌, inl, inr, not,
}
use indy_node.Auth.Action.{Action}
use indy_node.Auth.Constraint.{AuthConstraint, off_ledger}
use indy_node.Auth.Request.{Request}
use indy_node.Auth.Verdict.{accepted}
use indy_node.Auth.Authorizer.{authorize_role, is_empty}
use indy_node.Auth.Authorizer.Grants.{RoleGrants}

pub is_empty-eq_false {ℓ} : {A : Type ℓ} (l : List A) → l ≢ [] → is_empty l ≡ false
is_empty-eq_false [] h = absurd (h refl)
is_empty-eq_false (x ∷ l) h = refl

pub ne_nil {ℓ} : {A : Type ℓ} (l : List A) → is_empty l ≡ false → l ≢ []
ne_nil [] h = λ _. cc
ne_nil (x ∷ l) h = λ e. cc

module _ (role_of : String → Option String) (q : Request) (a : Action) (c : AuthConstraint) where
  authorize_role-RoleGrants : authorize_role role_of q a c ≡ accepted → RoleGrants role_of q a c
  unfolding authorize_role
  authorize_role-RoleGrants h = record {
    owner = λ o. ground arith;
    known = λ p o e. ground arith;
    signed = λ p s. ground (arith, is_empty-eq_false q.signatures s);
    enough = ground arith;
  }

  author_known :
      RoleGrants role_of q a c
      → (ltb 0 c.sig_count && (not (off_ledger c) && is_none (role_of q.identifier))) ≡ false
  author_known g = elim (Option-cases (role_of q.identifier)) [
    | inl e ↦ ground (arith, λ (p : 0 < c.sig_count) (o : off_ledger c ≡ false). g.known p o e)
    | inr (r, e) ↦ ground arith
  ]

  author_signed :
      RoleGrants role_of q a c
      → (ltb 0 c.sig_count
          && (not (is_empty q.signatures) && not (has_key q.identifier q.signatures)))
        ≡ false
  author_signed g = elim (Bool-cases (is_empty q.signatures)) [
    | inl e ↦ ground arith
    | inr e ↦ ground (arith, λ (p : 0 < c.sig_count). g.signed p (ne_nil q.signatures e))
  ]

  RoleGrants-authorize_role : RoleGrants role_of q a c → authorize_role role_of q a c ≡ accepted
  unfolding authorize_role
  RoleGrants-authorize_role g = ground (arith, author_known g, author_signed g)

  -- The checks of `RolesAuthorizer` accept exactly the requests that meet the constraint.
  pub authorize_role_iff : (authorize_role role_of q a c ≡ accepted) ↔ RoleGrants role_of q a c
  authorize_role_iff = (authorize_role-RoleGrants, RoleGrants-authorize_role)

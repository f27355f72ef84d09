-- ===== src/Auth/Authorizer/Grants.antt =====
-- What it means that a constraint is met, said without the authorizers' order of checks, their
-- exceptions and their loops. It specifies indy_common/authorize/authorizer.py.
pub mod Roles
pub mod Endorsers
pub mod Tree
use indy_node.Base.{
  ℕ, ◌≤◌, ◌<◌, String, Option, none, some, ◌≡◌, ◌≢◌, true, false, List, [], ◌⊎◌, length, has_key,
}
use indy_node.Auth.Role.{endorser}
use indy_node.Auth.Action.{Action, is_owner}
use indy_node.Auth.Constraint.{
  AuthConstraint, Constraint, Constraints, role_constraint, and_constraint, or_constraint, nil,
  cons, off_ledger,
}
use indy_node.Auth.Request.{Request}
use indy_node.Auth.Authorizer.{get_sig_count, is_privileged, has_privileged_sig, author_role}

module _ (role_of : String → Option String) where
  pub record RoleGrants (q : Request) (a : Action) (c : AuthConstraint) : Type 0 where
    pub owner : c.need_to_be_owner ≡ true → is_owner a ≡ true
    pub known : 0 < c.sig_count → off_ledger c ≡ false → role_of q.identifier ≢ none
    pub signed : 0 < c.sig_count → q.signatures ≢ [] → has_key q.identifier q.signatures ≡ true
    pub enough : c.sig_count ≤ get_sig_count role_of q c.role (off_ledger c)

  -- Somebody besides the author signed, the author is not privileged, and a privileged DID signed.
  pub record IsEndorsed (q : Request) : Type 0 where
    pub extra : 1 < length q.signatures ⊎ (has_key q.identifier q.signatures ≡ false)
    pub nonempty : q.signatures ≢ []
    pub unprivileged : is_privileged (author_role role_of q) ≡ false
    pub privileged : has_privileged_sig role_of q.signatures ≡ true

  pub record EndorserGrants (q : Request) : Type 0 where
    pub role : (e : String) → q.endorser ≡ some e → role_of e ≡ some endorser
    pub signed :
        (e : String)
        → q.endorser ≡ some e
        → e ≢ q.identifier
        → e ≢ ""
        → has_key e q.signatures ≡ true
    pub named : IsEndorsed q → q.endorser ≢ none

  mutual
    pub data Grants (q : Request) (a : Action) : Constraint → Type 0 where
      by_role :
          {c : AuthConstraint}
          → RoleGrants q a c
          → EndorserGrants q
          → Grants q a (role_constraint c)
      by_all : {cs : Constraints} → GrantsAll q a cs → Grants q a (and_constraint cs)
      by_any : {cs : Constraints} → GrantsAny q a cs → Grants q a (or_constraint cs)

    pub data GrantsAll (q : Request) (a : Action) : Constraints → Type 0 where
      all_nil : GrantsAll q a nil
      all_cons :
          {c : Constraint} {cs : Constraints}
          → Grants q a c
          → GrantsAll q a cs
          → GrantsAll q a (cons c cs)

    pub data GrantsAny (q : Request) (a : Action) : Constraints → Type 0 where
      any_here : {c : Constraint} {cs : Constraints} → Grants q a c → GrantsAny q a (cons c cs)
      any_later : {c : Constraint} {cs : Constraints} → GrantsAny q a cs → GrantsAny q a (cons c cs)

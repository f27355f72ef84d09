-- ===== src/Auth/Authorizer/Grants/Endorsers.antt =====
-- `EndorserAuthorizer.authorize` decides `EndorserGrants`.
use indy_node.Base.{
  String, Option, none, some, ◌≡◌, ◌≢◌, refl, ◌↔◌, ◌⊎◌, inl, inr, ◌<◌, Bool, true, false, not, ◌||◌,
  arith, has_key, is_none, ltb, length, Bool-cases, Option-cases, eq_iff, opt_eq_iff,
}
use indy_node.Auth.Role.{endorser}
use indy_node.Auth.Request.{Request}
use indy_node.Auth.Verdict.{Verdict, accepted, and_then}
use indy_node.Auth.Authorizer.{
  authorize_endorser, check_endorser_role, check_endorser_field_presence, endorser_signed, is_empty,
  is_privileged, has_privileged_sig, author_role,
}
use indy_node.Auth.Authorizer.Grants.{EndorserGrants, IsEndorsed}
use indy_node.Auth.Authorizer.Grants.Roles.{ne_nil, is_empty-eq_false}

and_then-accepted : (v w : Verdict) → and_then v w ≡ accepted → (v ≡ accepted) × (w ≡ accepted)
and_then-accepted v w h = ground arith

is_none-false {ℓ} : {A : Type ℓ} (o : Option A) → o ≢ none → is_none o ≡ false
is_none-false none h = absurd (h refl)
is_none-false (some x) h = refl

module _ (role_of : String → Option String) (q : Request) where
  check_endorser_role-role :
      check_endorser_role role_of q ≡ accepted
      → (e : String) → q.endorser ≡ some e
      → role_of e ≡ some endorser
  unfolding check_endorser_role
  check_endorser_role-role h e p = ground (arith, opt_eq_iff (role_of e) (some endorser))

  endorser_signed-signed :
      endorser_signed q ≡ true
      → (e : String) → q.endorser ≡ some e
      → e ≢ q.identifier
      → e ≢ ""
      → has_key e q.signatures ≡ true
  unfolding endorser_signed
  endorser_signed-signed h e p ne nonempty = ground (arith, eq_iff e q.identifier, eq_iff e "")

  abbrev exempt : Bool
  exempt =
      is_empty q.signatures
      || (not (ltb 1 (length q.signatures) || not (has_key q.identifier q.signatures))
          || (is_privileged (author_role role_of q)
              || not (has_privileged_sig role_of q.signatures)))

  presence_lem :
      check_endorser_field_presence role_of q ≡ accepted
      → (endorser_signed q ≡ true) × ((exempt ≡ true) ⊎ (is_none q.endorser ≡ false))
  unfolding check_endorser_field_presence
  presence_lem h = ground (arith, h)

  presence_of :
      endorser_signed q ≡ true
      → (exempt ≡ true) ⊎ (is_none q.endorser ≡ false)
      → check_endorser_field_presence role_of q ≡ accepted
  unfolding check_endorser_field_presence
  presence_of s e = ground arith

  IsEndorsed-exempt : IsEndorsed role_of q → exempt ≡ false
  IsEndorsed-exempt e = ground (arith, is_empty-eq_false q.signatures e.nonempty)

  extra_sigs :
      exempt ≡ false → 1 < length q.signatures ⊎ (has_key q.identifier q.signatures ≡ false)
  extra_sigs e = elim (Bool-cases (has_key q.identifier q.signatures)) [
    | inl h ↦ inl (ground arith)
    | inr h ↦ inr h
  ]

  exempt-IsEndorsed : exempt ≡ false → IsEndorsed role_of q
  exempt-IsEndorsed e = record {
    extra = extra_sigs e;
    nonempty = ne_nil q.signatures (ground arith);
    unprivileged = ground arith;
    privileged = ground arith;
  }

  authorize_endorser-parts :
      authorize_endorser role_of q ≡ accepted
      → (check_endorser_role role_of q ≡ accepted)
        × (check_endorser_field_presence role_of q ≡ accepted)
  unfolding authorize_endorser
  authorize_endorser-parts h = and_then-accepted _ _ h

  authorize_endorser-EndorserGrants :
      authorize_endorser role_of q ≡ accepted → EndorserGrants role_of q
  authorize_endorser-EndorserGrants h =
      let (r, p) = authorize_endorser-parts h in
      let (s, e) = presence_lem p in
      record {
        role = check_endorser_role-role r;
        signed = endorser_signed-signed s;
        named = λ d none_given. ground (arith, e, IsEndorsed-exempt d);
      }

  role-check : EndorserGrants role_of q → check_endorser_role role_of q ≡ accepted
  unfolding check_endorser_role
  role-check g = elim (Option-cases q.endorser) [
    | inl e ↦ ground arith
    | inr (d, e) ↦ ground (arith, g.role d e, opt_eq_iff (role_of d) (some endorser))
  ]

  has_key-is_empty : (k : String) → has_key k q.signatures ≡ true → is_empty q.signatures ≡ false
  has_key-is_empty k h = elim (Bool-cases (is_empty q.signatures)) [
    | inl e ↦ ground arith
    | inr e ↦ e
  ]

  signed-check : EndorserGrants role_of q → endorser_signed q ≡ true
  unfolding endorser_signed
  signed-check g = elim (Option-cases q.endorser) [
    | inl e ↦ ground arith
    | inr (d, e) ↦ ground (
      arith,
      λ (n : d ≢ q.identifier) (m : d ≢ ""). g.signed d e n m,
      λ (h : has_key d q.signatures ≡ true). has_key-is_empty d h,
      eq_iff d q.identifier,
      eq_iff d "",
    )
  ]

  named-check : EndorserGrants role_of q → (exempt ≡ true) ⊎ (is_none q.endorser ≡ false)
  named-check g = elim (Bool-cases exempt) [
    | inl e ↦ inl e
    | inr e ↦ let n = g.named (exempt-IsEndorsed e) in inr (is_none-false q.endorser n)
  ]

  EndorserGrants-authorize_endorser :
      EndorserGrants role_of q → authorize_endorser role_of q ≡ accepted
  unfolding authorize_endorser
  EndorserGrants-authorize_endorser g =
      let r = role-check g in let p = presence_of (signed-check g) (named-check g) in rw (r, p)

  -- The checks of `EndorserAuthorizer` accept exactly the requests whose endorser is in order.
  pub authorize_endorser_iff : (authorize_endorser role_of q ≡ accepted) ↔ EndorserGrants role_of q
  authorize_endorser_iff = (authorize_endorser-EndorserGrants, EndorserGrants-authorize_endorser)

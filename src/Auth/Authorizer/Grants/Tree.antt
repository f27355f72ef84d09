-- ===== src/Auth/Authorizer/Grants/Tree.antt =====
-- The composite authorizer decides `Grants`, for a whole tree of constraints.
use indy_node.Base.{
  ℕ, ◌+◌, String, Option, ◌≡◌, ◌↔◌, refl, ◌⊎◌, inl, inr, arith, List, [], ◌∷◌, ◌<◌,
}
use indy_node.Auth.Action.{Action}
use indy_node.Auth.Constraint.{
  Constraint, Constraints, forbidden, role_constraint, and_constraint, or_constraint, nil, cons,
}
use indy_node.Auth.Request.{Request}
use indy_node.Auth.Verdict.{
  Reason, Fails, no_fails, Verdict, Result, accepted, refused, ok, raised, run_authorizers,
  append_fail,
}
use indy_node.Auth.Authorizer.{authorize, authorize_and, authorize_or}
use indy_node.Auth.Authorizer.Grants.{
  Grants, GrantsAll, GrantsAny, by_role, by_all, by_any, all_nil, all_cons, any_here, any_later,
}
use indy_node.Auth.Authorizer.Grants.Roles.{authorize_role_iff}
use indy_node.Auth.Authorizer.Grants.Endorsers.{authorize_endorser_iff}

module _ (role_of : String → Option String) (q : Request) (a : Action) where
  run-settles :
      (l : List (Result Verdict))
      → (run_authorizers l ≡ ok accepted) ⊎ ((r : Reason) × (run_authorizers l ≡ raised r))
  unfolding run_authorizers
  run-settles [] = inl refl
  run-settles (ok accepted ∷ l) = run-settles l
  run-settles (ok (refused r) ∷ l) = inr (r, refl)
  run-settles (raised r ∷ l) = inr (r, refl)

  -- The composite authorizer returns `True` or raises, and never returns `False`.
  pub authorize_settles :
      (c : Constraint)
      → (authorize role_of q a c ≡ ok accepted)
        ⊎ ((r : Reason) × (authorize role_of q a c ≡ raised r))
  unfolding authorize
  authorize_settles forbidden = run-settles _
  authorize_settles (role_constraint c) = run-settles _
  authorize_settles (and_constraint cs) = run-settles _
  authorize_settles (or_constraint cs) = run-settles _

  mutual
    unfolding authorize authorize_and authorize_or run_authorizers

    sound : (c : Constraint) → authorize role_of q a c ≡ ok accepted → Grants role_of q a c
    sound forbidden h = cc
    sound (role_constraint c) h =
        by_role ((authorize_role_iff role_of q a c).0 (ground arith))
          ((authorize_endorser_iff role_of q).0 (ground arith))
    sound (and_constraint cs) h = by_all (sound_all cs (ground arith))
    sound (or_constraint cs) h = by_any (sound_any cs cs no_fails (ground arith))

    sound_all :
        (cs : Constraints) → authorize_and role_of q a cs ≡ ok accepted → GrantsAll role_of q a cs
    sound_all nil h = all_nil
    sound_all (cons c cs) h = all_cons (sound c (ground arith)) (sound_all cs (ground arith))

    sound_any :
        (cs whole : Constraints) (f : Fails)
        → authorize_or role_of q a whole 0 f cs ≡ ok accepted
        → GrantsAny role_of q a cs
    sound_any nil whole f h = cc
    sound_any (cons c cs) whole f h = elim (authorize_settles c) [
      | inl e ↦ any_here (sound c e)
      | inr (r, e) ↦ any_later (sound_any cs whole (append_fail f c r) (ground (arith, h, e)))
    ]

  -- After one success the loop of `OrAuthorizer` ends with acceptance.
  or_accepts :
      (cs whole : Constraints) (n : ℕ) (f : Fails)
      → 0 < n
      → authorize_or role_of q a whole n f cs ≡ ok accepted
  unfolding authorize_or
  or_accepts nil whole n f h = ground arith
  or_accepts (cons c cs) whole n f h = elim (authorize_settles c) [
    | inl e ↦ rw e (or_accepts cs whole (n + 1) f (omega arith))
    | inr (r, e) ↦ rw e (or_accepts cs whole n (append_fail f c r) h)
  ]

  mutual
    unfolding authorize authorize_and authorize_or run_authorizers

    complete : {c : Constraint} → Grants role_of q a c → authorize role_of q a c ≡ ok accepted
    complete (by_role {c = c} g e) =
        let r = (authorize_role_iff role_of q a c).1 g in
        let s = (authorize_endorser_iff role_of q).1 e in rw (r, s)
    complete (by_all g) = rw (complete_all g)
    complete (by_any {cs = cs} g) = rw (complete_any g cs 0 no_fails)

    complete_all :
        {cs : Constraints} → GrantsAll role_of q a cs → authorize_and role_of q a cs ≡ ok accepted
    complete_all all_nil = refl
    complete_all (all_cons g rest) = rw (complete g) (complete_all rest)

    complete_any :
        {cs : Constraints}
        → GrantsAny role_of q a cs
        → (whole : Constraints) (n : ℕ) (f : Fails)
        → authorize_or role_of q a whole n f cs ≡ ok accepted
    complete_any (any_here {cs = cs} g) whole n f =
        rw (complete g) (or_accepts cs whole (n + 1) f (omega arith))
    complete_any (any_later {c = c} {cs = cs} g) whole n f = elim (authorize_settles c) [
      | inl e ↦ rw e (complete_any g whole (n + 1) f)
      | inr (r, e) ↦ rw e (complete_any g whole n (append_fail f c r))
    ]

  -- The composite authorizer accepts a request exactly when the request meets the constraint: its
  -- roles, owners, signatures and endorser for a role constraint, all branches of an AND, some
  -- branch of an OR, and never a forbidden action.
  pub authorize_iff :
      (c : Constraint) → (authorize role_of q a c ≡ ok accepted) ↔ Grants role_of q a c
  authorize_iff c = (sound c, complete)

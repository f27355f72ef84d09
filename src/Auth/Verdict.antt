-- ===== src/Auth/Verdict.antt =====
-- What an authorizer answers: the pair of a Boolean and a reason, or the exception
-- `AuthValidationError` (indy_common/authorize/authorizer.py). A reason is kept as a value with the
-- data that the program formats into its message.
use indy_node.Base.{String, Option, List, [], ◌∷◌}
use indy_node.Auth.Constraint.{Constraint, Constraints}

mutual
  pub data Reason : Type 0 where
    only_owner_touches : (who field : String) → Reason
    only_owner_edits : (who txn_type : String) → Reason
    not_on_ledger : (did : String) → Reason
    author_must_sign : Reason
    not_enough_signatures : (role : Option String) → Reason
    bad_endorser_role : Reason
    endorser_must_sign : Reason
    endorser_field_required : Reason
    action_is_forbidden : Reason
    rule_failed : Constraints → Fails → Reason

  -- The list `fails` of `OrAuthorizer`.
  pub data Fails : Type 0 where
    no_fails : Fails
    fail : Constraint → Reason → Fails → Fails

-- `fails.append(...)`
unfoldable pub append_fail : Fails → Constraint → Reason → Fails
append_fail no_fails c r = fail c r no_fails
append_fail (fail d s f) c r = fail d s (append_fail f c r)

-- `True, ""` or `False, reason`
pub data Verdict : Type 0 where
  accepted : Verdict
  refused : Reason → Verdict

pub data Result {ℓ} (A : Type ℓ) : Type ℓ where
  ok : A → Result A
  raised : Reason → Result A

-- `res, reason = v; if not res: return res, reason`, and then `w`
abbrev pub and_then : Verdict → Verdict → Verdict
and_then accepted w = w
and_then (refused r) w = refused r

-- The loop of `CompositeAuthorizer.authorize` over the answers of the registered authorizers.
unfoldable pub run_authorizers : List (Result Verdict) → Result Verdict
run_authorizers [] = ok accepted
run_authorizers (ok accepted ∷ rest) = run_authorizers rest
run_authorizers (ok (refused r) ∷ rest) = raised r
run_authorizers (raised r ∷ rest) = raised r

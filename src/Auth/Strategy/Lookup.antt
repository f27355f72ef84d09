-- ===== src/Auth/Strategy/Lookup.antt =====
-- The rule that is found for an action.
use indy_node.Base.{
  true, false, other_eq, String, Option, none, Option-cases, inl, inr, ◌≢◌, [], ◌∷◌, ◌≡◌, some,
  Bool, ◌&&◌, ◌||◌, arith, refl, ◌==◌,
}
use indy_node.Auth.Action.{ActionDef, compile_action_id, split_action_id}
use indy_node.Auth.Action.RoundTrip.{IsClean, split-compile}
use indy_node.Base.Split.{split}
use indy_node.Auth.Constraint.{Constraint}
use indy_node.Auth.Strategy.{
  accepts_parts, is_accepted_action_id, AuthMap, find_auth_constraint_key, get_from_state,
  config_ledger_auth_constraint, local_auth_constraint, make_state_path_for_auth_rule,
}

-- A rule's field "*" fits every value of a request.
abbrev pub fits : String → String → Bool
fits value pattern = value == pattern || pattern == "*"

abbrev pub matches : ActionDef → ActionDef → Bool
matches am r =
    r.prefix == am.prefix
    && (r.txn_type == am.txn_type
        && (fits r.field am.field
            && (fits r.old_value am.old_value && fits r.new_value am.new_value)))

accepts_parts-matches : (am r : ActionDef) → accepts_parts am r ≡ matches am r
unfolding accepts_parts
accepts_parts-matches am r = ground arith

-- On ids that are compiled from parts without the delimiter, the test of a rule against a request
-- is the comparison of the parts: equal prefixes and types, and each other part equal or "*" in the
-- rule.
pub is_accepted-compile :
    (am r : ActionDef)
    → IsClean am
    → IsClean r
    → is_accepted_action_id (compile_action_id am) (compile_action_id r) ≡ some (matches am r)
unfolding is_accepted_action_id
is_accepted-compile am r h k =
    rw (split-compile am h) (rw (split-compile r k) (rw (accepts_parts-matches am r)))

empty_id : (r : String) → is_accepted_action_id "" r ≡ none
unfolding is_accepted_action_id split_action_id split
empty_id r = refl

id_nonempty : (am_id r : String) {b : Bool} → is_accepted_action_id am_id r ≡ some b → am_id ≢ ""
id_nonempty am_id r h e = let n = rw e at h in cc (empty_id r)

-- A key that is found is not the empty text.
found-nonempty :
    (action_id : String) (m : AuthMap) (k : String)
    → find_auth_constraint_key action_id m ≡ some (some k)
    → k ≢ ""
unfolding find_auth_constraint_key
found-nonempty action_id [] k h e = cc
found-nonempty action_id ((am_id, c) ∷ m) k h e =
    elim (Option-cases (is_accepted_action_id am_id action_id)) [
      | inl n ↦ ground (arith, h, n)
      | inr (true, p) ↦ id_nonempty am_id action_id p (ground (arith, h, p, e))
      | inr (false, p) ↦ found-nonempty action_id m k (ground (arith, h, p)) e
    ]

module _ (state : String → Option String) (deserialize : String → Constraint) (m : AuthMap)
    (action_id : String) where
  -- Where the config ledger holds no rule, its strategy finds what the local strategy finds.
  pub config_ledger-eq-local :
      ((key : String) → get_from_state state deserialize key ≡ none)
      → config_ledger_auth_constraint state deserialize m action_id
        ≡ local_auth_constraint m action_id
  unfolding config_ledger_auth_constraint local_auth_constraint
  config_ledger-eq-local h = elim (Option-cases (find_auth_constraint_key action_id m)) [
    | inl n ↦ rw n
    | inr (none, p) ↦ rw p
    | inr (some k, p) ↦ rw p (
        rw (other_eq k "" (found-nonempty action_id m k p))
          (rw (h (make_state_path_for_auth_rule k))))
  ]

  -- A rule that the config ledger holds for the key that is found is used in place of the default.
  pub config_ledger_overrides :
      (k bytes : String)
      → find_auth_constraint_key action_id m ≡ some (some k)
      → state (make_state_path_for_auth_rule k) ≡ some bytes
      → bytes ≢ ""
      → config_ledger_auth_constraint state deserialize m action_id
        ≡ some (some (deserialize bytes))
  unfolding config_ledger_auth_constraint get_from_state
  config_ledger_overrides k bytes f s n =
      rw f (rw (other_eq k "" (found-nonempty action_id m k f)) (rw s (rw (other_eq bytes "" n))))

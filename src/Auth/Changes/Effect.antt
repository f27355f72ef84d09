-- ===== src/Auth/Changes/Effect.antt =====
-- A rule that a transaction sets is the rule that the config ledger strategy finds from then on.
use indy_node.Base.{String, some, ◌≡◌, ◌≢◌, refl, ap, ◌∙◌, same_eq, if◌then◌else◌}
use indy_node.Base.Json.{Json}
use indy_node.Auth.Constraint.{Constraint}
use indy_node.Auth.Constraint.Dict.{as_dict, create_constraint, create_constraint-as_dict}
use indy_node.Auth.Constraint.Created.{create_constraint-IsCreated}
use indy_node.Auth.Strategy.{
  AuthMap, find_auth_constraint_key, config_ledger_auth_constraint, make_state_path_for_auth_rule,
}
use indy_node.Auth.Strategy.Lookup.{config_ledger_overrides}
use indy_node.Auth.Changes.{RuleChange, get_auth_key, ConfigState, set_state, update_rule}

-- What is relied on of the serializer of dictionaries and of `ConstraintsSerializer.deserialize`,
-- for a constraint: what is serialized is not empty, and is read back and made a constraint again.
pub record Reads (serialize : Json → String) (deserialize : String → Constraint) (c : Constraint)
    : Type 0 where
  pub dict_of : String → Json
  pub read_back : dict_of (serialize (as_dict c)) ≡ as_dict c
  pub nonempty : serialize (as_dict c) ≢ ""
  pub creates :
      (s : String) (d : Constraint) → create_constraint (dict_of s) ≡ some d → deserialize s ≡ d

module _ (serialize : Json → String) (deserialize : String → Constraint) where
  written :
      (op : RuleChange) (state : ConfigState) (c : Constraint)
      → create_constraint op.constraint ≡ some c
      → update_rule serialize op state
        ≡ some (
            set_state
              (make_state_path_for_auth_rule (get_auth_key op))
              (serialize (as_dict c))
              state)
  unfolding update_rule
  written op state c e = rw (e, update_rule) refl

  set-same : (k v : String) (state : ConfigState) → set_state k v state k ≡ some v
  set-same k v state = ap (λ b. if b then some v else state k) (same_eq k)

  deserialize-serialize :
      (c : Constraint) (j : Json)
      → Reads serialize deserialize c
      → create_constraint j ≡ some c
      → deserialize (serialize (as_dict c)) ≡ c
  deserialize-serialize c j reads e = reads.creates (serialize (as_dict c)) c (
      ap create_constraint reads.read_back
      ∙ create_constraint-as_dict c (create_constraint-IsCreated j c e))

  -- A transaction with a constraint is written, and after it the config ledger strategy finds that
  -- constraint for every action whose key is the one of the transaction, where the serializer gives
  -- back what it was given.
  pub update_rule_lem :
      (auth_map : AuthMap) (op : RuleChange) (state : ConfigState) (c : Constraint)
      → Reads serialize deserialize c
      → create_constraint op.constraint ≡ some c
      → (after : ConfigState) × (update_rule serialize op state ≡ some after)
        × ((action_id : String)
            → find_auth_constraint_key action_id auth_map ≡ some (some (get_auth_key op))
            → config_ledger_auth_constraint after deserialize auth_map action_id ≡ some (some c))
  update_rule_lem auth_map op state c reads e =
      let path = make_state_path_for_auth_rule (get_auth_key op) in
      let bytes = serialize (as_dict c) in
      (
        set_state path bytes state,
        written op state c e,
        λ action_id f.
            config_ledger_overrides (set_state path bytes state) deserialize auth_map action_id
              (get_auth_key op) bytes f (set-same path bytes state) reads.nonempty
            ∙ ap (λ d. some (some d)) (deserialize-serialize c op.constraint reads e),
      )

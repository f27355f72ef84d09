-- ===== src/Domain/Definitions/Kept.antt =====
-- What the writes of definitions leave as it is: schemas that are there, and the places of other
-- DIDs.
use Prim.Native.String.{◌++◌}
use indy_node.Base.{
  ℕ, String, Option, none, some, Bool, true, false, List, [], ◌∷◌, ◌==◌, get, put, get-put,
  if◌then◌else◌, ◌≡◌, ◌≢◌, refl, sym, ap, ◌∙◌, arith, eq_iff, other_eq, Bool-cases, Option-cases,
  inl, inr,
}
use indy_node.Auth.Txn
use indy_node.Auth.Action.{
  Action, get_action_id, split_action_id, auth_action_add, auth_action_edit,
}
use indy_node.Auth.Constraint.{Constraint, forbidden}
use indy_node.Auth.Request.{Request}
use indy_node.Auth.Rules.{auth_map}
use indy_node.Auth.Strategy.{
  local_auth_constraint, find_auth_constraint_key, is_accepted_action_id, accepts_parts,
}
use indy_node.Auth.Authorizer.{authorize}
use indy_node.Auth.Verdict.{run_authorizers}
use indy_node.Auth.Validator.{
  Validation, authorised, unauthorised, not_allowed, bad_action_id, no_action, local_auth_policy,
  validate, get_auth_constraint,
}
use indy_node.Domain.Paths.{
  make_state_path_for_schema, make_state_path_for_claim_def, make_state_path_for_revoc_def,
}
use indy_node.Domain.Paths.Colons.{plain, first_part}
use indy_node.Domain.Paths.Places.{Place, did_of, path_of, path_of-parts}
use indy_node.Domain.Definitions.{
  DomainState, DomainTxn, SchemaData, ClaimDefData, RevocDefData, passed, checked, whole_action,
  value_at, is_there, prepare_schema_for_state, update_schema, validate_schema,
  prepare_claim_def_for_state, update_claim_def, prepare_revoc_def_for_state, update_revoc_def,
  StateValue, store,
}

edit_schema_rule :
    local_auth_constraint auth_map (get_action_id (whole_action Txn.schema true))
    ≡ some (some forbidden)
unfolding local_auth_constraint find_auth_constraint_key is_accepted_action_id accepts_parts
    get_action_id split_action_id auth_action_edit auth_action_add whole_action
edit_schema_rule = refl

module _ (role_of state_of : String → Option String) (deserialize : String → Constraint) where
  abbrev pub authorise : Request → List Action → Validation
  authorise = validate role_of state_of deserialize local_auth_policy auth_map

  -- No request edits what the rules let nobody edit.
  pub never_edited :
      (txn_type : String)
      → local_auth_constraint auth_map (get_action_id (whole_action txn_type true))
        ≡ some (some forbidden)
      → (q : Request) → authorise q (whole_action txn_type true ∷ []) ≢ authorised
  unfolding validate get_auth_constraint authorize run_authorizers
  never_edited txn_type rule q h = let e = rw (rule, validate) at h in absurd (ground (arith, e))

  checked-passed : (v : Validation) → checked v ≡ passed → v ≡ authorised
  checked-passed authorised h = refl
  checked-passed no_action h = absurd (ground (arith, h))
  checked-passed (unauthorised r) h = absurd (ground (arith, h))
  checked-passed not_allowed h = absurd (ground (arith, h))
  checked-passed bad_action_id h = absurd (ground (arith, h))

  -- Under the default rules and the local policy, the transaction of a schema whose request passes
  -- the dynamic validation leaves what is under the path of every schema that is there.
  pub schema_kept :
      (type_at : ℕ → Option String) (state : DomainState) (q : Request) (txn : DomainTxn SchemaData)
      (path : String)
      → validate_schema authorise type_at state q txn.content ≡ passed
      → txn.from ≡ q.identifier
      → is_there (value_at state path) ≡ true
      → get path (update_schema state txn) ≡ get path state
  unfolding validate_schema update_schema prepare_schema_for_state
  schema_kept type_at state q txn path valid author there =
      let own = make_state_path_for_schema q.identifier txn.content.name txn.content.version in
      let written = make_state_path_for_schema txn.from txn.content.name txn.content.version in
      let same : own ≡ written =
        ap (λ d. make_state_path_for_schema d txn.content.name txn.content.version) (sym author) in
      elim (Bool-cases (written == path)) [
        | inl e ↦
            let here : is_there (value_at state own) ≡ true =
              ap (λ t. is_there (value_at state t)) (same ∙ (eq_iff written path).0 e) ∙ there in
            absurd
              (never_edited Txn.schema edit_schema_rule q (checked-passed _ (rw here at valid)))
        | inr e ↦ get-put written path _ state ∙ rw e refl
      ]

abbrev value_or : DomainState → Option DomainState → DomainState
value_or d none = d
value_or d (some s) = s

-- A transaction of one of the three handlers, and its `update_state`.
pub data Definition : Type 0 where
  schema_txn : DomainTxn SchemaData → Definition
  claim_def_txn : DomainTxn ClaimDefData → Definition
  revoc_def_txn : DomainTxn RevocDefData → Definition

abbrev pub author_of : Definition → String
author_of (schema_txn txn) = txn.from
author_of (claim_def_txn txn) = txn.from
author_of (revoc_def_txn txn) = txn.from

abbrev pub write_definition : DomainState → Definition → Option DomainState
write_definition state (schema_txn txn) = some (update_schema state txn)
write_definition state (claim_def_txn txn) = update_claim_def state txn
write_definition state (revoc_def_txn txn) = update_revoc_def state txn

-- In what the handlers write, the path begins with the DID of the author.
module _ (sha256 : String → String) (p : Place) (author : String) (others : did_of p ≢ author)
    (plain_did : plain (did_of p) ≡ true) (plain_author : plain author ≡ true) where
  other_path : (rest : String) → author ++ (":" ++ rest) ≢ path_of sha256 p
  other_path rest e = others (
      sym
        (first_part author (did_of p) rest _ plain_author plain_did (e ∙ path_of-parts sha256 p)).0)

  kept :
      (rest : String) (v : StateValue) (state : DomainState)
      → get (path_of sha256 p) (put (author ++ (":" ++ rest)) v state)
        ≡ get (path_of sha256 p) state
  kept rest v state =
      get-put (author ++ (":" ++ rest)) (path_of sha256 p) v state
      ∙ rw (other_eq (author ++ (":" ++ rest)) (path_of sha256 p) (other_path rest)) refl

  -- A path of the author.
  abbrev IsOwn : String → Type 0
  IsOwn path = (rest : String) × (path ≡ author ++ (":" ++ rest))

  path-IsOwn : (d rest : String) → d ≡ author → IsOwn (d ++ (":" ++ rest))
  path-IsOwn d rest e = (rest, ap (λ t. t ++ (":" ++ rest)) e)

  abbrev AllOwn : Option (String × StateValue) → Type 0
  AllOwn none = Unit
  AllOwn (some (path, v)) = IsOwn path

  store_kept :
      (state after : DomainState) (r : Option (String × StateValue))
      → AllOwn r
      → store state r ≡ some after
      → get (path_of sha256 p) after ≡ get (path_of sha256 p) state
  store_kept state after none own h = absurd (ground (arith, h))
  store_kept state after (some (path, v)) (rest, e) h =
      ap (λ o. get (path_of sha256 p) (value_or state o)) (sym h)
      ∙ ap (λ t. get (path_of sha256 p) (put t v state)) e
      ∙ kept rest v state

  when :
      (b : Bool) (path : String) (v : StateValue)
      → IsOwn path
      → AllOwn (if b then some (path, v) else none)
  when true path v own = own
  when false path v own = tt

  claim_def-AllOwn :
      (txn : DomainTxn ClaimDefData) → txn.from ≡ author → AllOwn (prepare_claim_def_for_state txn)
  unfolding prepare_claim_def_for_state make_state_path_for_claim_def
  claim_def-AllOwn txn e = elim (Option-cases (txn.content.schema_ref)) [
    | inl n ↦ rw n tt
    | inr (ref, r) ↦ elim (Option-cases (txn.content.public_keys)) [
      | inl n ↦ rw (r, n) tt
      | inr (keys, k) ↦ rw (r, k) (path-IsOwn txn.from _ e)
    ]
  ]

  revoc_def-AllOwn :
      (txn : DomainTxn RevocDefData) → txn.from ≡ author → AllOwn (prepare_revoc_def_for_state txn)
  unfolding prepare_revoc_def_for_state make_state_path_for_revoc_def
  revoc_def-AllOwn txn e = when _ _ _ (path-IsOwn txn.from _ e)

  -- A definition that an author writes leaves the places of every other DID as they are.
  pub other_places_kept :
      (state after : DomainState) (d : Definition)
      → author_of d ≡ author
      → write_definition state d ≡ some after
      → get (path_of sha256 p) after ≡ get (path_of sha256 p) state
  unfolding update_schema prepare_schema_for_state make_state_path_for_schema update_claim_def
      update_revoc_def
  other_places_kept state after (schema_txn txn) e h =
      ap (λ o. get (path_of sha256 p) (value_or state o)) (sym h) ∙ rw e (kept _ _ state)
  other_places_kept state after (claim_def_txn txn) e h =
      store_kept state after _ (claim_def-AllOwn txn e) h
  other_places_kept state after (revoc_def_txn txn) e h =
      store_kept state after _ (revoc_def-AllOwn txn e) h

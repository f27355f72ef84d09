-- ===== src/Domain/RichSchema/Mapping/Checked.antt =====
-- What the dynamic validation of rich_schema_mapping_handler.py makes sure of, under the default
-- rules.
use indy_node.Base.{
  ℕ, String, Option, none, some, true, false, List, [], ◌∷◌, get, ◌≡◌, refl, ap, ◌∙◌, arith,
}
use indy_node.Base.Json as Json
use indy_node.Base.Json.{Json, item_of}
use indy_node.Auth.Txn
use indy_node.Auth.Action.{get_action_id, split_action_id, auth_action_add, auth_action_edit}
use indy_node.Auth.Constraint.{Constraint, forbidden}
use indy_node.Auth.Request.{Request}
use indy_node.Auth.Rules.{auth_map}
use indy_node.Auth.Strategy.{
  local_auth_constraint, find_auth_constraint_key, is_accepted_action_id, accepts_parts,
}
use indy_node.Domain.Definitions.{whole_action}
use indy_node.Domain.Definitions.Kept.{authorise, never_edited}
use indy_node.Domain.RichSchema.{
  RichOp, RichState, found, get_from_state, passed, is_found, secondary_key, check_found,
  check_type, json_of, referenced, and_then, crashed,
}
use indy_node.Domain.RichSchema.Kept.{and_then-passed, after_lookup-NewObject}
use indy_node.Domain.RichSchema.References.{
  HasType, RefersTo, found_there, check_type-HasType, referenced-text, refers,
}
use indy_node.Domain.RichSchema.Mapping.{
  Desc, find_descs, ranks, field_in, lookup_of, check_encodings, check_attributes,
  check_mapping_parts, check_mapping, mapping_content, validate_mapping,
}
use indy_node.Domain.RichSchema.Mapping.Ranks.{Sequential, check_ranks-Sequential}

edit_mapping_rule :
    local_auth_constraint auth_map (get_action_id (whole_action Txn.rich_schema_mapping true))
    ≡ some (some forbidden)
unfolding local_auth_constraint find_auth_constraint_key is_accepted_action_id accepts_parts
    get_action_id split_action_id auth_action_edit auth_action_add whole_action
edit_mapping_rule = refl

-- The description names an object of the state that is an encoding.
abbrev pub Encoded : RichState → Json → Type 0
Encoded state j =
    (id : String) × (v : Json) × (field_in "enc" j ≡ some (Json.str id))
    × (get_from_state state id ≡ found v)
    × HasType "enc" v

abbrev pub AllEncoded : RichState → List Desc → Type 0
AllEncoded state [] = Unit
AllEncoded state ((j, attr) ∷ ds) = Encoded state j × AllEncoded state ds

encoded :
    (state : RichState) (j : Json) (o : Option Json)
    → field_in "enc" j ≡ o
    → check_found "enc" (lookup_of state o) ≡ passed
    → check_type "enc" "enc" (json_of (lookup_of state o)) ≡ passed
    → Encoded state j
encoded state j none e exists type = absurd (ground (arith, exists))
encoded state j (some i) e exists type =
    let (v, at_id) = found_there "enc" (referenced state i) exists in
    let (id, text, stored) = referenced-text state i v at_id in
    (id, v, e ∙ ap some text, stored, check_type-HasType "enc" "enc" v (rw at_id at type))

check_encodings-AllEncoded :
    (state : RichState) (ds : List Desc) → check_encodings state ds ≡ passed → AllEncoded state ds
unfolding check_encodings
check_encodings-AllEncoded state [] h = tt
check_encodings-AllEncoded state ((j, attr) ∷ ds) h =
    let (exists, h1) = and_then-passed _ _ h in
    let (type, rest) = and_then-passed _ _ h1 in
    (encoded state j (field_in "enc" j) refl exists type, check_encodings-AllEncoded state ds rest)

-- The ranks of the descriptions are the numbers from one on, and each names an encoding.
abbrev pub GoodDescs : RichState → List Desc → Type 0
GoodDescs state ds = (l : List ℕ) × (ranks ds ≡ some l) × Sequential l × AllEncoded state ds

check_attributes-GoodDescs :
    (state : RichState) (ds : List Desc) → check_attributes state ds ≡ passed → GoodDescs state ds
check_attributes-GoodDescs state ds h =
    let (described, h1) = and_then-passed _ _ h in
    let (ranked, coded) = and_then-passed _ _ h1 in
    let (l, e, sequential) = check_ranks-Sequential (ranks ds) ranked in
    (l, e, sequential, check_encodings-AllEncoded state ds coded)

-- The content is that of a mapping: its schema is in the state, and its descriptions are good.
abbrev pub GoodMapping : RichState → Json.Fields → Type 0
GoodMapping state fs =
    RefersTo state fs "schema" "sch"
    × ((a : Json) × (item_of "attributes" fs ≡ some a) × GoodDescs state (find_descs a none))

parts-GoodMapping :
    (state : RichState) (fs : Json.Fields) (s a : Option Json)
    → item_of "schema" fs ≡ s
    → item_of "attributes" fs ≡ a
    → check_mapping_parts state s a ≡ passed
    → GoodMapping state fs
parts-GoodMapping state fs none a e f h = absurd (ground (arith, h))
parts-GoodMapping state fs (some s) none e f h =
    let schema = referenced state s in
    let typed = check_type "schema" "sch" (json_of schema) in
    let (exists, h1) = and_then-passed (check_found "schema" schema) (and_then typed crashed) h in
    let (type, wrong) = and_then-passed typed crashed h1 in absurd (ground (arith, wrong))
parts-GoodMapping state fs (some s) (some a) e f h =
    let (exists, h1) = and_then-passed _ _ h in
    let (type, described) = and_then-passed _ _ h1 in
    (
      refers state fs "schema" "sch" s e exists type,
      (a, f, check_attributes-GoodDescs state (find_descs a none) described),
    )

module _ (role_of state_of : String → Option String) (deserialize : String → Constraint)
    (parse : String → Option Json) where
  content-GoodMapping :
      (state : RichState) (content : Option Json)
      → mapping_content parse state content ≡ passed
      → (fs : Json.Fields) × (content ≡ some (Json.obj fs)) × GoodMapping state fs
  unfolding check_mapping
  content-GoodMapping state (some (Json.obj fs)) h =
      (fs, refl, parts-GoodMapping state fs _ _ refl refl h)
  content-GoodMapping state none h = absurd (ground (arith, h))
  content-GoodMapping state (some Json.null) h = absurd (ground (arith, h))
  content-GoodMapping state (some (Json.bool b)) h = absurd (ground (arith, h))
  content-GoodMapping state (some (Json.num n)) h = absurd (ground (arith, h))
  content-GoodMapping state (some (Json.str s)) h = absurd (ground (arith, h))
  content-GoodMapping state (some (Json.arr a)) h = absurd (ground (arith, h))

  -- Under the default rules and the local policy, a mapping passes the dynamic validation only if
  -- it is new, names a schema in the state, and describes each of its attributes with the id of an
  -- encoding in the state and with a rank, where the ranks are the numbers from one on, each once.
  pub mapping_checked :
      (state : RichState) (q : Request) (op : RichOp)
      → validate_mapping parse (authorise role_of state_of deserialize) state q op ≡ passed
      → (is_found (get_from_state state op.rs_id) ≡ false)
        × (get (secondary_key op) state ≡ none)
        × ((fs : Json.Fields) × (parse op.content ≡ some (Json.obj fs)) × GoodMapping state fs)
  unfolding validate_mapping
  mapping_checked state q op h =
      let (whole, absent, free, content) =
        after_lookup-NewObject (get_from_state state op.rs_id) _
          (λ b.
            authorise role_of state_of deserialize q (whole_action Txn.rich_schema_mapping b ∷ []))
          _ (never_edited role_of state_of deserialize Txn.rich_schema_mapping edit_mapping_rule q)
          h in
      (absent, free, content-GoodMapping state (parse op.content) content)

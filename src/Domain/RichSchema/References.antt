-- ===== src/Domain/RichSchema/References.antt =====
-- What a credential definition refers to: rich_schema_cred_def_handler.py.
use indy_node.Base.{
  get, String, Option, none, some, false, ◌==◌, if◌then◌else◌, ◌≡◌, refl, ap, ◌∙◌, arith, eq_iff,
  Bool-cases, Option-cases, inl, inr,
}
use indy_node.Base.Json as Json
use indy_node.Base.Json.{Json, item_of}
use indy_node.Auth.Constraint.{Constraint}
use indy_node.Auth.Request.{Request}
use indy_node.Domain.Definitions.Kept.{authorise}
use indy_node.Domain.RichSchema.{
  cred_def, RichOp, RichState, Lookup, nothing, broken, found, get_from_state, RichCheck, passed,
  check_type, check_found, referenced, json_of, both_there, check_references, check_dynamic_content,
  validate_object, is_found, secondary_key,
}
use indy_node.Domain.RichSchema.Kept.{and_then-passed, validate_object-NewObject}

-- An object of the type.
abbrev pub HasType : String → Json → Type 0
HasType t j = (fs : Json.Fields) × (j ≡ Json.obj fs) × (item_of "rsType" fs ≡ some (Json.str t))

-- The content names an object of the state in the field, and that object has the type.
abbrev pub RefersTo : RichState → Json.Fields → (field t : String) → Type 0
RefersTo state fs field t =
    (id : String) × (j : Json) × (item_of field fs ≡ some (Json.str id))
    × (get_from_state state id ≡ found j)
    × HasType t j

pub found_there :
    (field : String) (l : Lookup) → check_found field l ≡ passed → (j : Json) × (l ≡ found j)
found_there field (found j) h = (j, refl)
found_there field broken h = absurd (ground (arith, h))
found_there field nothing h = absurd (ground (arith, h))

same_text :
    (s t field : String) → (if s == t then passed else RichCheck.wrong_type field) ≡ passed → s ≡ t
same_text s t field h = elim (Bool-cases (s == t)) [
  | inl e ↦ (eq_iff s t).0 e
  | inr e ↦ absurd (ground (arith, rw e at h))
]

typed :
    (field t : String) (fs : Json.Fields)
    → check_type field t (Json.obj fs) ≡ passed
    → HasType t (Json.obj fs)
typed field t fs h = elim (Option-cases (item_of "rsType" fs)) [
  | inl n ↦ absurd (ground (arith, rw (n, check_type) at h))
  | inr (Json.str s, e) ↦
      (fs, refl, e ∙ ap (λ u. some (Json.str u)) (same_text s t field (rw (e, check_type) at h)))
  | inr (Json.null, e) ↦ absurd (ground (arith, rw (e, check_type) at h))
  | inr (Json.bool b, e) ↦ absurd (ground (arith, rw (e, check_type) at h))
  | inr (Json.num n, e) ↦ absurd (ground (arith, rw (e, check_type) at h))
  | inr (Json.arr a, e) ↦ absurd (ground (arith, rw (e, check_type) at h))
  | inr (Json.obj o, e) ↦ absurd (ground (arith, rw (e, check_type) at h))
]

pub check_type-HasType : (field t : String) (j : Json) → check_type field t j ≡ passed → HasType t j
check_type-HasType field t (Json.obj fs) h = typed field t fs h
check_type-HasType field t Json.null h = absurd (ground (arith, h))
check_type-HasType field t (Json.bool b) h = absurd (ground (arith, h))
check_type-HasType field t (Json.num n) h = absurd (ground (arith, h))
check_type-HasType field t (Json.str s) h = absurd (ground (arith, h))
check_type-HasType field t (Json.arr a) h = absurd (ground (arith, h))

pub referenced-text :
    (state : RichState) (i j : Json)
    → referenced state i ≡ found j
    → (id : String) × (i ≡ Json.str id) × (get_from_state state id ≡ found j)
referenced-text state (Json.str id) j h = (id, refl, h)
referenced-text state Json.null j h = absurd (ground (arith, h))
referenced-text state (Json.bool b) j h = absurd (ground (arith, h))
referenced-text state (Json.num n) j h = absurd (ground (arith, h))
referenced-text state (Json.arr a) j h = absurd (ground (arith, h))
referenced-text state (Json.obj o) j h = absurd (ground (arith, h))

pub refers :
    (state : RichState) (fs : Json.Fields) (field t : String) (i : Json)
    → item_of field fs ≡ some i
    → check_found field (referenced state i) ≡ passed
    → check_type field t (json_of (referenced state i)) ≡ passed
    → RefersTo state fs field t
refers state fs field t i there exists type =
    let (j, at_id) = found_there field (referenced state i) exists in
    let (id, text, stored) = referenced-text state i j at_id in
    (id, j, there ∙ ap some text, stored, check_type-HasType field t j (rw at_id at type))

both-RefersTo :
    (state : RichState) (fs : Json.Fields) (s m : Option Json)
    → item_of "schema" fs ≡ s
    → item_of "mapping" fs ≡ m
    → both_there state s m ≡ passed
    → RefersTo state fs "schema" "sch" × RefersTo state fs "mapping" "map"
both-RefersTo state fs (some s) (some m) e f h =
    let (a, h1) = and_then-passed _ _ h in
    let (b, h2) = and_then-passed _ _ h1 in
    let (c, d) = and_then-passed _ _ h2 in
    (refers state fs "schema" "sch" s e a c, refers state fs "mapping" "map" m f b d)
both-RefersTo state fs none m e f h = absurd (ground (arith, h))
both-RefersTo state fs (some s) none e f h = absurd (ground (arith, h))

module _ (role_of state_of : String → Option String) (deserialize : String → Constraint)
    (parse : String → Option Json) where
  content-references :
      (state : RichState) (content : Option Json)
      → check_dynamic_content parse state cred_def content ≡ passed
      → (fs : Json.Fields) × (content ≡ some (Json.obj fs)) × (check_references state fs ≡ passed)
  content-references state (some (Json.obj fs)) h = (fs, refl, h)
  content-references state none h = absurd (ground (arith, h))
  content-references state (some Json.null) h = absurd (ground (arith, h))
  content-references state (some (Json.bool b)) h = absurd (ground (arith, h))
  content-references state (some (Json.num n)) h = absurd (ground (arith, h))
  content-references state (some (Json.str s)) h = absurd (ground (arith, h))
  content-references state (some (Json.arr a)) h = absurd (ground (arith, h))

  -- Under the default rules and the local policy, a credential definition passes the dynamic
  -- validation only if it is new and its content is a dictionary that names a schema and a mapping
  -- in the state, each an object of its type.
  pub cred_def_refers :
      (state : RichState) (q : Request) (op : RichOp)
      → validate_object parse (authorise role_of state_of deserialize) state cred_def q op ≡ passed
      → (is_found (get_from_state state op.rs_id) ≡ false)
        × (get (secondary_key op) state ≡ none)
        × ((fs : Json.Fields) × (parse op.content ≡ some (Json.obj fs))
            × RefersTo state fs "schema" "sch"
            × RefersTo state fs "mapping" "map")
  unfolding check_references
  cred_def_refers state q op h =
      let (whole, absent, free, content) =
        validate_object-NewObject role_of state_of deserialize parse state cred_def q op h in
      let (fs, parsed, ok) = content-references state (parse op.content) content in
      let (schema, mapping) = both-RefersTo state fs _ _ refl refl ok in
      (absent, free, (fs, parsed, schema, mapping))

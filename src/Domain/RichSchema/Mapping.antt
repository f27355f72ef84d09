-- ===== src/Domain/RichSchema/Mapping.antt =====
-- rich_schema_mapping_handler.py under
-- indy_node/server/request_handlers/domain_req_handlers/rich_schema: the content of a mapping.
pub mod Ranks
pub mod Checked
use indy_node.Base.{
  ℕ, zero, suc, String, Option, none, some, Bool, true, false, not, ◌&&◌, ◌||◌, List, [], ◌∷◌,
  num_eq, length, get, if◌then◌else◌,
}
use indy_node.Base.Json as Json
use indy_node.Base.Json.{Json, item_of}
use indy_node.Identity.Diddoc.{is_true}
use indy_node.Revocation.Sets.{sort}
use indy_node.Domain.RichSchema.{
  RichState, Lookup, RichCheck, passed, missing, crashed, and_then, missing_in, none_missing,
  sub_fields, check_found, check_type, referenced, json_of, RichOp, check_json_ld, not_json,
  disabled, after_lookup, secondary_key, get_from_state,
}
use indy_node.Auth.Txn
use indy_node.Auth.Action.{Action}
use indy_node.Auth.Request.{Request}
use indy_node.Auth.Validator.{Validation}
use indy_node.Domain.Definitions.{whole_action}

-- A dictionary with the description of one attribute, or what stands in its place, with the name of
-- the attribute; `none` is `None`.
abbrev pub Desc : Type 0
Desc = Json × Option String

abbrev pub join_all : List Desc → List Desc → List Desc
join_all [] l = l
join_all (d ∷ ds) l = d ∷ join_all ds l

-- `is_leaf_dict` of a dictionary
unfoldable pub is_leaf_dict : Json.Fields → Bool
is_leaf_dict Json.end = true
is_leaf_dict (Json.field k (Json.obj o) fs) = false
is_leaf_dict (Json.field k (Json.arr a) fs) = false
is_leaf_dict (Json.field k j fs) = is_leaf_dict fs

unfoldable mutual
  -- `find_encoding_desc_dicts`
  pub find_descs : Json → Option String → List Desc
  find_descs (Json.obj fs) attr =
      let below = descs_of_fields fs in if is_leaf_dict fs then (Json.obj fs, attr) ∷ [] else below
  find_descs j attr = (j, attr) ∷ []

  pub descs_of_fields : Json.Fields → List Desc
  descs_of_fields Json.end = []
  descs_of_fields (Json.field k (Json.arr items) fs) =
      join_all (descs_of_items items (some k)) (descs_of_fields fs)
  descs_of_fields (Json.field k j fs) = join_all (find_descs j (some k)) (descs_of_fields fs)

  pub descs_of_items : Json.Items → Option String → List Desc
  descs_of_items Json.nil attr = []
  descs_of_items (Json.cons j js) attr = join_all (find_descs j attr) (descs_of_items js attr)

-- `not v and v != 0`, where `False` is equal to 0
abbrev pub is_unset : Option Json → Bool
is_unset none = true
is_unset (some (Json.num n)) = false
is_unset (some (Json.bool b)) = false
is_unset (some j) = not (is_true j)

abbrev pub unset_in : List String → Json.Fields → List String
unset_in [] fs = []
unset_in (f ∷ fields) fs =
    let rest = unset_in fields fs in if is_unset (item_of f fs) then f ∷ rest else rest

-- The fourth check, of one description.
abbrev pub check_desc : Json → RichCheck
check_desc (Json.obj fs) = none_missing (unset_in ("enc" ∷ "rank" ∷ []) fs)
check_desc j = missing ("enc" ∷ "rank" ∷ [])

unfoldable pub check_descs : List Desc → RichCheck
check_descs [] = passed
check_descs ((j, attr) ∷ ds) = and_then (check_desc j) (check_descs ds)

abbrev pub field_in : String → Json → Option Json
field_in k (Json.obj fs) = item_of k fs
field_in k j = none

-- The rank of a description, where it is a number; `True` and `False` are equal to 1 and 0.
abbrev pub rank_of : Option Json → Option ℕ
rank_of (some (Json.num n)) = some n
rank_of (some (Json.bool b)) = some (if b then 1 else 0)
rank_of _ = none

abbrev pub cons_all : Option ℕ → Option (List ℕ) → Option (List ℕ)
cons_all (some n) (some l) = some (n ∷ l)
cons_all _ _ = none

-- The ranks, where all are numbers.
unfoldable pub ranks : List Desc → Option (List ℕ)
ranks [] = some []
ranks ((j, attr) ∷ ds) = cons_all (rank_of (field_in "rank" j)) (ranks ds)

-- `list(range(first, first + n))`
unfoldable pub range_from : ℕ → ℕ → List ℕ
range_from first zero = []
range_from first (suc n) = first ∷ range_from (suc first) n

unfoldable pub list_eq : List ℕ → List ℕ → Bool
list_eq [] [] = true
list_eq (x ∷ xs) (y ∷ ys) = num_eq x y && list_eq xs ys
list_eq _ _ = false

-- The fifth check. Ranks that are not all numbers are not sorted, TypeError, or not the expected
-- ones.
abbrev pub check_ranks : Option (List ℕ) → RichCheck
check_ranks none = RichCheck.bad_ranks
check_ranks (some l) =
    if list_eq (sort l) (range_from 1 (length l)) then passed else RichCheck.bad_ranks

-- The sixth check.
abbrev pub lookup_of : RichState → Option Json → Lookup
lookup_of state none = Lookup.broken
lookup_of state (some j) = referenced state j

unfoldable pub check_encodings : RichState → List Desc → RichCheck
check_encodings state [] = passed
check_encodings state ((j, attr) ∷ ds) =
    let encoding = lookup_of state (field_in "enc" j) in
    and_then (check_found "enc" encoding)
      (and_then (check_type "enc" "enc" (json_of encoding)) (check_encodings state ds))

-- `do_static_validation_content`
unfoldable pub check_mapping_content : Json.Fields → RichCheck
check_mapping_content fs =
    and_then (none_missing (missing_in ("schema" ∷ "attributes" ∷ []) fs))
      (sub_fields ("issuer" ∷ "issuanceDate" ∷ []) (item_of "attributes" fs))

abbrev pub check_attributes : RichState → List Desc → RichCheck
check_attributes state ds =
    and_then (check_descs ds) (and_then (check_ranks (ranks ds)) (check_encodings state ds))

abbrev pub all_attributes : RichState → Option Json → RichCheck
all_attributes state none = crashed
all_attributes state (some a) = check_attributes state (find_descs a none)

abbrev pub check_mapping_parts : RichState → (schema attributes : Option Json) → RichCheck
check_mapping_parts state none a = crashed
check_mapping_parts state (some s) a =
    let schema = referenced state s in
    and_then (check_found "schema" schema)
      (and_then (check_type "schema" "sch" (json_of schema)) (all_attributes state a))

-- `do_dynamic_validation_content`
unfoldable pub check_mapping : RichState → Json.Fields → RichCheck
check_mapping state fs = check_mapping_parts state (item_of "schema" fs) (item_of "attributes" fs)

-- The common handler with the checks of mappings.
module _ (parse : String → Option Json) where
  unfoldable pub static_mapping : (enabled : Bool) → RichOp → RichCheck
  static_mapping enabled op =
      if enabled
      then elim (parse op.content) [
        | none ↦ not_json
        | some (Json.obj fs) ↦ and_then (check_json_ld fs op.rs_id) (check_mapping_content fs)
        | some _ ↦ crashed
      ]
      else disabled

  abbrev pub mapping_content : RichState → Option Json → RichCheck
  mapping_content state (some (Json.obj fs)) = check_mapping state fs
  mapping_content state _ = crashed

  unfoldable pub validate_mapping :
      (Request → List Action → Validation) → RichState → Request → RichOp → RichCheck
  validate_mapping authorise state request op =
      after_lookup (get_from_state state op.rs_id) (get (secondary_key op) state)
        (λ exists. authorise request (whole_action Txn.rich_schema_mapping exists ∷ []))
        (mapping_content state (parse op.content))

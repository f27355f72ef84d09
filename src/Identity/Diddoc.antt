-- ===== src/Identity/Diddoc.antt =====
-- The check of a DID document in
-- indy_node/server/request_handlers/domain_req_handlers/nym_handler.py.
pub mod Validity
use Prim.Native.String as Text
use Prim.Native.Char.{Char, code}
use indy_node.Base.{
  ℕ, String, Option, none, some, Bool, true, false, not, ◌&&◌, num_eq, if◌then◌else◌, ◌==◌, ◌≡◌,
  ◌↔◌, refl, arith, eq_iff, Bool-cases, inl, inr,
}
use indy_node.Base.Json.{item_of, Json, Items, Fields}

-- The truth of a value.
abbrev pub is_true : Json → Bool
is_true Json.null = false
is_true (Json.bool b) = b
is_true (Json.num n) = not (num_eq n 0)
is_true (Json.str s) = not (s == "")
is_true (Json.arr Items.nil) = false
is_true (Json.arr (Items.cons j js)) = true
is_true (Json.obj Fields.end) = false
is_true (Json.obj (Fields.field k j fs)) = true

-- `s.partition("#")[2]`
unfoldable pub after_hash : String → String
after_hash Text.[] = ""
after_hash (Text.◌∷◌ c s) = let rest = after_hash s in if num_eq (code c) b'#' then s else rest

-- The document passes, has an `id` at its root, or has an object whose `id` has the fragment; or
-- AttributeError, for a document that is no dictionary or an `id` that is no text.
pub data DocCheck : Type 0 where
  doc_valid has_id has_fragment attribute_error : DocCheck

-- `_has_same_id_fragment`; `none` is AttributeError.
unfoldable pub id_fragment_is : String → Option Json → Option Bool
id_fragment_is fragment none = some false
id_fragment_is fragment (some (Json.str s)) = some (after_hash s == fragment)
id_fragment_is fragment (some _) = none

unfoldable pub has_same_id_fragment : String → Json → Option Bool
has_same_id_fragment fragment (Json.obj fs) = id_fragment_is fragment (item_of "id" fs)
has_same_id_fragment fragment _ = some false

abbrev pub and_rest : Option Bool → DocCheck → DocCheck
and_rest none rest = attribute_error
and_rest (some true) rest = has_fragment
and_rest (some false) rest = rest

unfoldable pub check_items : Items → DocCheck → DocCheck
check_items Items.nil rest = rest
check_items (Items.cons item items) rest =
    let others = check_items items rest in and_rest (has_same_id_fragment "verkey" item) others

unfoldable pub check_value : Json → DocCheck → DocCheck
check_value (Json.arr items) rest = check_items items rest
check_value _ rest = rest

unfoldable pub check_values : Fields → DocCheck
check_values Fields.end = doc_valid
check_values (Fields.field k el fs) = let rest = check_values fs in check_value el rest

abbrev pub root_id : Option Json → Bool
root_id none = false
root_id (some j) = is_true j

-- `_validate_diddoc_content`
unfoldable pub validate_diddoc_content : Json → DocCheck
validate_diddoc_content (Json.obj fs) =
    if root_id (item_of "id" fs) then has_id else check_values fs
validate_diddoc_content _ = attribute_error

-- No element of the lists at the root names the fragment: the texts of the ids differ from it
-- behind the first "#".
abbrev pub IdDiffers : Option Json → Type 0
IdDiffers none = Unit
IdDiffers (some (Json.str s)) = (after_hash s == "verkey") ≡ false
IdDiffers (some _) = ⊥

abbrev pub ItemDiffers : Json → Type 0
ItemDiffers (Json.obj fs) = IdDiffers (item_of "id" fs)
ItemDiffers _ = Unit

abbrev pub ItemsDiffer : Items → Type 0
ItemsDiffer Items.nil = Unit
ItemsDiffer (Items.cons item items) = ItemDiffers item × ItemsDiffer items

abbrev pub ValueDiffers : Json → Type 0
ValueDiffers (Json.arr items) = ItemsDiffer items
ValueDiffers _ = Unit

abbrev pub ValuesDiffer : Fields → Type 0
ValuesDiffer Fields.end = Unit
ValuesDiffer (Fields.field k el fs) = ValueDiffers el × ValuesDiffer fs

abbrev pub ValidDocument : Json → Type 0
ValidDocument (Json.obj fs) = (root_id (item_of "id" fs) ≡ false) × ValuesDiffer fs
ValidDocument _ = ⊥

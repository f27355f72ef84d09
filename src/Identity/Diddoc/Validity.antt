-- ===== src/Identity/Diddoc/Validity.antt =====
-- `_validate_diddoc_content` of
-- indy_node/server/request_handlers/domain_req_handlers/nym_handler.py against what makes a
-- document valid.
use indy_node.Base.{Option, none, some, ◌==◌, ◌≡◌, ◌↔◌, refl, arith, Bool-cases, inl, inr}
use indy_node.Base.Json.{item_of, Json, Items, Fields}
use indy_node.Identity.Diddoc.{
  DocCheck, doc_valid, after_hash, id_fragment_is, has_same_id_fragment, and_rest, check_items,
  check_value, check_values, root_id, validate_diddoc_content, IdDiffers, ItemDiffers, ItemsDiffer,
  ValueDiffers, ValuesDiffer, ValidDocument,
}

id-Differs :
    (o : Option Json) (rest : DocCheck)
    → (and_rest (id_fragment_is "verkey" o) rest ≡ doc_valid) ↔ (IdDiffers o × (rest ≡ doc_valid))
unfolding id_fragment_is
id-Differs none rest = (λ h. (tt, h), λ h. h.1)
id-Differs (some (Json.str s)) rest = elim (Bool-cases (after_hash s == "verkey")) [
  | inl e ↦ rw e (λ h. absurd (ground (arith, h)), λ h. absurd (ground (arith, h.0)))
  | inr e ↦ rw e (λ h. (refl, h), λ h. h.1)
]
id-Differs (some Json.null) rest = (λ h. absurd (ground (arith, h)), λ h. absurd h.0)
id-Differs (some (Json.bool b)) rest = (λ h. absurd (ground (arith, h)), λ h. absurd h.0)
id-Differs (some (Json.num n)) rest = (λ h. absurd (ground (arith, h)), λ h. absurd h.0)
id-Differs (some (Json.arr items)) rest = (λ h. absurd (ground (arith, h)), λ h. absurd h.0)
id-Differs (some (Json.obj fs)) rest = (λ h. absurd (ground (arith, h)), λ h. absurd h.0)

item-Differs :
    (j : Json) (rest : DocCheck)
    → (and_rest (has_same_id_fragment "verkey" j) rest ≡ doc_valid)
      ↔ (ItemDiffers j × (rest ≡ doc_valid))
unfolding has_same_id_fragment
item-Differs (Json.obj fs) rest = id-Differs (item_of "id" fs) rest
item-Differs Json.null rest = (λ h. (tt, h), λ h. h.1)
item-Differs (Json.bool b) rest = (λ h. (tt, h), λ h. h.1)
item-Differs (Json.num n) rest = (λ h. (tt, h), λ h. h.1)
item-Differs (Json.str s) rest = (λ h. (tt, h), λ h. h.1)
item-Differs (Json.arr items) rest = (λ h. (tt, h), λ h. h.1)

items-Differ :
    (items : Items) (rest : DocCheck)
    → (check_items items rest ≡ doc_valid) ↔ (ItemsDiffer items × (rest ≡ doc_valid))
unfolding check_items
items-Differ Items.nil rest = (λ h. (tt, h), λ h. h.1)
items-Differ (Items.cons item items) rest =
    let here = item-Differs item (check_items items rest) in
    let others = items-Differ items rest in
    (
      λ h. let a = here.0 h in let b = others.0 a.1 in ((a.0, b.0), b.1),
      λ h. here.1 (h.0.0, others.1 (h.0.1, h.1)),
    )

value-Differs :
    (j : Json) (rest : DocCheck)
    → (check_value j rest ≡ doc_valid) ↔ (ValueDiffers j × (rest ≡ doc_valid))
unfolding check_value
value-Differs (Json.arr items) rest = items-Differ items rest
value-Differs Json.null rest = (λ h. (tt, h), λ h. h.1)
value-Differs (Json.bool b) rest = (λ h. (tt, h), λ h. h.1)
value-Differs (Json.num n) rest = (λ h. (tt, h), λ h. h.1)
value-Differs (Json.str s) rest = (λ h. (tt, h), λ h. h.1)
value-Differs (Json.obj fs) rest = (λ h. (tt, h), λ h. h.1)

values-Differ : (fs : Fields) → (check_values fs ≡ doc_valid) ↔ ValuesDiffer fs
unfolding check_values
values-Differ Fields.end = (λ h. tt, λ h. refl)
values-Differ (Fields.field k el fs) =
    let here = value-Differs el (check_values fs) in
    let others = values-Differ fs in
    (λ h. let a = here.0 h in (a.0, others.0 a.1), λ h. here.1 (h.0, others.1 h.1))

-- A document is valid exactly when it is a dictionary without a true `id` at its root, and each
-- dictionary in a list at its root that has an `id` has a text there, whose part behind the first
-- "#" is not "verkey".
pub validate_diddoc_content_iff :
    (j : Json) → (validate_diddoc_content j ≡ doc_valid) ↔ ValidDocument j
unfolding validate_diddoc_content
validate_diddoc_content_iff (Json.obj fs) = elim (Bool-cases (root_id (item_of "id" fs))) [
  | inl e ↦ rw e (λ h. absurd (ground (arith, h)), λ h. absurd (ground (arith, h.0)))
  | inr e ↦ rw e (λ h. (refl, (values-Differ fs).0 h), λ h. (values-Differ fs).1 h.1)
]
validate_diddoc_content_iff Json.null = (λ h. absurd (ground (arith, h)), λ h. absurd h)
validate_diddoc_content_iff (Json.bool b) = (λ h. absurd (ground (arith, h)), λ h. absurd h)
validate_diddoc_content_iff (Json.num n) = (λ h. absurd (ground (arith, h)), λ h. absurd h)
validate_diddoc_content_iff (Json.str s) = (λ h. absurd (ground (arith, h)), λ h. absurd h)
validate_diddoc_content_iff (Json.arr items) = (λ h. absurd (ground (arith, h)), λ h. absurd h)

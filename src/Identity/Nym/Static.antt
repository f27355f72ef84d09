-- ===== src/Identity/Nym/Static.antt =====
-- `static_validation` of indy_node/server/request_handlers/domain_req_handlers/nym_handler.py
-- against what makes an operation valid.
use indy_node.Base.{ℕ, ◌≤◌, String, Option, some, true, false, ◌≡◌, ◌≢◌}
use indy_node.Base.Json.{Json}
use indy_node.Identity.Diddoc.{ValidDocument}
use indy_node.Identity.Nym.{NymOperation, value_or_none, missing, is_valid_role}

module _ (loads : String → Option Json) (op : NymOperation) where
  -- A document, where the operation has one that is not empty, is read and valid.
  abbrev pub ReadsValid : Option String → Type 0
  ReadsValid content =
      (s : String) → content ≡ some s → s ≢ "" → (j : Json) × (loads s ≡ some j) × ValidDocument j

  abbrev ReadsHere : String → Type 0
  ReadsHere s = (j : Json) × (loads s ≡ some j) × ValidDocument j

  pub record ValidOperation : Type 0 where
    pub has_dest : missing op.dest ≡ false
    pub role_known : is_valid_role (value_or_none op.role) ≡ true
    pub document : ReadsValid (value_or_none op.diddoc_content)
    pub version_known : (n : ℕ) → op.version ≡ some n → n ≤ 2

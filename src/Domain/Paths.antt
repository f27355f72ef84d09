-- ===== src/Domain/Paths.antt =====
-- The paths under which the domain state holds its values: indy_common/state/domain.py, and the
-- same functions of the handlers.
pub mod Colons
pub mod Places
use Prim.Native.String.{String, ◌++◌}
use indy_node.Base.{Bool, if◌then◌else◌}

abbrev pub marker_attr : String
marker_attr = "1"

abbrev pub marker_schema : String
marker_schema = "2"

abbrev pub marker_claim_def : String
marker_claim_def = "3"

abbrev pub marker_revoc_def : String
marker_revoc_def = "4"

-- `sha256` is the hexadecimal digest of a text.
module _ (sha256 : String → String) where
  unfoldable pub make_state_path_for_attr :
      (did attr_name : String) → (attr_is_hash : Bool) → String
  make_state_path_for_attr did attr_name attr_is_hash =
      did
      ++ (":" ++ (marker_attr ++ (":" ++ (if attr_is_hash then attr_name else sha256 attr_name))))

unfoldable pub make_state_path_for_schema : (did name version : String) → String
make_state_path_for_schema did name version =
    did ++ (":" ++ (marker_schema ++ (":" ++ (name ++ (":" ++ version)))))

unfoldable pub make_state_path_for_claim_def :
    (did schema_seq_no signature_type tag : String) → String
make_state_path_for_claim_def did schema_seq_no signature_type tag =
    did
    ++ (":"
        ++ (marker_claim_def
            ++ (":" ++ (signature_type ++ (":" ++ (schema_seq_no ++ (":" ++ tag)))))))

unfoldable pub make_state_path_for_revoc_def :
    (did cred_def_id revoc_def_type revoc_def_tag : String) → String
make_state_path_for_revoc_def did cred_def_id revoc_def_type revoc_def_tag =
    did
    ++ (":"
        ++ (marker_revoc_def
            ++ (":" ++ (cred_def_id ++ (":" ++ (revoc_def_type ++ (":" ++ revoc_def_tag)))))))

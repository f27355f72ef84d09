-- ===== src/Domain/Paths/Places.antt =====
-- The paths of different places in the domain state are different: indy_common/state/domain.py.
use Prim.Native.String.{String, ◌++◌}
use indy_node.Base.{true, ◌≡◌, refl, sym, ap, ap₂, ◌∙◌, arith, eq_iff}
use indy_node.Domain.Paths.{
  marker_attr, marker_schema, marker_claim_def, marker_revoc_def, make_state_path_for_attr,
  make_state_path_for_schema, make_state_path_for_claim_def, make_state_path_for_revoc_def,
}
use indy_node.Domain.Paths.Colons.{plain, colons, first_part, last_part, same_parts}

-- What a path stands for. An attribute is named by the hash of its name.
pub data Place : Type 0 where
  attr_at : (did name_hash : String) → Place
  schema_at : (did name version : String) → Place
  claim_def_at : (did schema_seq_no signature_type tag : String) → Place
  revoc_def_at : (did cred_def_id revoc_def_type revoc_def_tag : String) → Place

abbrev pub did_of : Place → String
did_of (attr_at d _) = d
did_of (schema_at d _ _) = d
did_of (claim_def_at d _ _ _) = d
did_of (revoc_def_at d _ _ _) = d

abbrev marker_of : Place → String
marker_of (attr_at _ _) = marker_attr
marker_of (schema_at _ _ _) = marker_schema
marker_of (claim_def_at _ _ _ _) = marker_claim_def
marker_of (revoc_def_at _ _ _ _) = marker_revoc_def

abbrev rest_of : Place → String
rest_of (attr_at _ h) = h
rest_of (schema_at _ n v) = n ++ (":" ++ v)
rest_of (claim_def_at _ s t g) = t ++ (":" ++ (s ++ (":" ++ g)))
rest_of (revoc_def_at _ c t g) = c ++ (":" ++ (t ++ (":" ++ g)))

-- No colon is in a DID, in the version of a schema, and in the types and numbers that other
-- identifiers have; five parts are in the id of a claim definition.
abbrev pub WellFormed : Place → Type 0
WellFormed (attr_at d _) = plain d ≡ true
WellFormed (schema_at d _ v) = (plain d ≡ true) × (plain v ≡ true)
WellFormed (claim_def_at d s t _) = (plain d ≡ true) × (plain s ≡ true) × (plain t ≡ true)
WellFormed (revoc_def_at d c t _) = (plain d ≡ true) × (colons c ≡ 4) × (plain t ≡ true)

module _ (sha256 : String → String) where
  abbrev pub path_of : Place → String
  path_of (attr_at d h) = make_state_path_for_attr sha256 d h true
  path_of (schema_at d n v) = make_state_path_for_schema d n v
  path_of (claim_def_at d s t g) = make_state_path_for_claim_def d s t g
  path_of (revoc_def_at d c t g) = make_state_path_for_revoc_def d c t g

  pub path_of-parts :
      (p : Place) → path_of p ≡ did_of p ++ (":" ++ (marker_of p ++ (":" ++ rest_of p)))
  unfolding make_state_path_for_attr make_state_path_for_schema make_state_path_for_claim_def
      make_state_path_for_revoc_def
  path_of-parts (attr_at d h) = refl
  path_of-parts (schema_at d n v) = refl
  path_of-parts (claim_def_at d s t g) = refl
  path_of-parts (revoc_def_at d c t g) = refl

did-plain : (p : Place) → WellFormed p → plain (did_of p) ≡ true
did-plain (attr_at d h) w = w
did-plain (schema_at d n v) w = w.0
did-plain (claim_def_at d s t g) w = w.0
did-plain (revoc_def_at d c t g) w = w.0

marker-plain : (p : Place) → plain (marker_of p) ≡ true
unfolding plain
marker-plain (attr_at d h) = refl
marker-plain (schema_at d n v) = refl
marker-plain (claim_def_at d s t g) = refl
marker-plain (revoc_def_at d c t g) = refl

parts-injective :
    (p q : Place)
    → WellFormed p
    → WellFormed q
    → did_of p ≡ did_of q
    → marker_of p ≡ marker_of q
    → rest_of p ≡ rest_of q
    → p ≡ q
parts-injective (attr_at d h) (attr_at d' h') w x e m r = ap₂ attr_at e r
parts-injective (schema_at d n v) (schema_at d' n' v') w x e m r =
    let (names, versions) = last_part n n' v v' w.1 x.1 r in
    ap (λ t. schema_at t n v) e ∙ ap₂ (schema_at d') names versions
parts-injective (claim_def_at d s t g) (claim_def_at d' s' t' g') w x e m r =
    let (types, later) = first_part t t' _ _ w.2 x.2 r in
    let (numbers, tags) = first_part s s' g g' w.1 x.1 later in
    ap (λ u. claim_def_at u s t g) e
    ∙ ap (λ u. claim_def_at d' u t g) numbers
    ∙ ap₂ (claim_def_at d' s') types tags
parts-injective (revoc_def_at d c t g) (revoc_def_at d' c' t' g') w x e m r =
    let (ids, later) = same_parts c c' _ _ (w.1 ∙ sym x.1) r in
    let (types, tags) = first_part t t' g g' w.2 x.2 later in
    ap (λ u. revoc_def_at u c t g) e
    ∙ ap (λ u. revoc_def_at d' u t g) ids
    ∙ ap₂ (revoc_def_at d' c') types tags
parts-injective p q w x e m r = absurd (ground (arith, m, (eq_iff (marker_of p) (marker_of q)).1))

-- Well-formed places whose paths are the same are the same place.
pub path_of-injective :
    (sha256 : String → String) (p q : Place)
    → WellFormed p
    → WellFormed q
    → path_of sha256 p ≡ path_of sha256 q
    → p ≡ q
path_of-injective sha256 p q w x e =
    let split = sym (path_of-parts sha256 p) ∙ e ∙ path_of-parts sha256 q in
    let (dids, later) =
      first_part (did_of p) (did_of q) _ _ (did-plain p w) (did-plain q x) split in
    let (markers, rests) =
      first_part (marker_of p) (marker_of q) _ _ (marker-plain p) (marker-plain q) later in
    parts-injective p q w x dids markers rests

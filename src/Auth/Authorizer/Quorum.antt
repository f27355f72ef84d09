-- ===== src/Auth/Authorizer/Quorum.antt =====
-- Who stands behind the number that `get_sig_count` of indy_common/authorize/authorizer.py returns.
use indy_node.Base.{
  other_eq, ℕ, ◌+◌, ◌≤◌, ◌<◌, String, Option, none, some, ◌≡◌, ◌≢◌, refl, ◌⊎◌, inl, inr, Bool, true,
  false, List, [], ◌∷◌, arith, length, has_key, truthy, eq_iff, opt_eq, opt_eq_iff, Bool-cases,
  if◌then◌else◌,
}
use indy_node.Auth.Request.{Request}
use indy_node.Auth.Authorizer.{is_role_accepted, count_signers, get_sig_count, is_empty}

-- `did` signed the request.
abbrev pub Signed : Request → String → Type 0
Signed q did =
    ((truthy q.signature ≡ true) × (did ≡ q.identifier)) ⊎ (has_key did q.signatures ≡ true)

module _ (role_of : String → Option String) where
  -- The signers of a multi-signature that hold `role`, each as often as it stands there.
  abbrev pub holders : String → List (String × String) → List String
  holders role [] = []
  holders role ((did, _) ∷ rest) =
      if opt_eq (role_of did) (some role) then did ∷ holders role rest else holders role rest

  is_role_accepted_lem :
      (o : Option String) (role : String)
      → role ≢ ""
      → role ≢ "*"
      → is_role_accepted o (some role) ≡ opt_eq o (some role)
  unfolding is_role_accepted
  is_role_accepted_lem none role h k = refl
  is_role_accepted_lem (some r) role h k =
      ground (arith, eq_iff r role, eq_iff r "", eq_iff role "*", eq_iff role "")

  pub count_signers-holders :
      (role : String) (n : ℕ) (l : List (String × String))
      → role ≢ ""
      → role ≢ "*"
      → count_signers role_of (some role) false n l ≡ n + length (holders role l)
  unfolding count_signers
  count_signers-holders role n [] h k = omega arith
  count_signers-holders role n ((did, s) ∷ l) h k =
      rw (is_role_accepted_lem (role_of did) role h k)
        (elim (Bool-cases (opt_eq (role_of did) (some role))) [
          | inl e ↦ rw e (omega (arith, count_signers-holders role (n + 1) l h k))
          | inr e ↦ rw e (count_signers-holders role n l h k)
        ])

  counted :
      (role : String) (l : List (String × String))
      → role ≢ ""
      → role ≢ "*"
      → (if is_empty l then 0 else count_signers role_of (some role) false 0 l)
        ≡ length (holders role l)
  counted role [] h k = refl
  counted role (s ∷ l) h k = omega (arith, count_signers-holders role 0 (s ∷ l) h k)

  -- For a role that is neither "*" nor empty, a multi-signature counts as the number of its
  -- signers that hold the role.
  pub get_sig_count-holders :
      (q : Request) (role : String)
      → truthy q.signature ≡ false
      → role ≢ ""
      → role ≢ "*"
      → get_sig_count role_of q (some role) false ≡ length (holders role q.signatures)
  unfolding get_sig_count
  get_sig_count-holders q role s h k = rw (s, other_eq role "*" k) (counted role q.signatures h k)

  -- A single signature counts at most once.
  pub get_sig_count-single :
      (q : Request) (role : Option String) (off : Bool)
      → truthy q.signature ≡ true
      → get_sig_count role_of q role off ≤ 1
  unfolding get_sig_count
  get_sig_count-single q role off s = ground arith

  holder :
      (role : String) (l : List (String × String))
      → 0 < length (holders role l)
      → (did : String) × (has_key did l ≡ true) × (role_of did ≡ some role)
  holder role [] h = absurd (omega arith)
  holder role ((did, s) ∷ l) h = elim (Bool-cases (opt_eq (role_of did) (some role))) [
    | inl e ↦ (did, ground (arith, eq_iff did did), (opt_eq_iff _ _).0 e)
    | inr e ↦ let (d, k, r) = holder role l (rw e at h) in (d, ground (arith, k), r)
  ]

  sole_holder :
      (q : Request) (role : String)
      → role ≢ ""
      → role ≢ "*"
      → truthy q.signature ≡ true
      → 0 < get_sig_count role_of q (some role) false
      → role_of q.identifier ≡ some role
  unfolding get_sig_count
  sole_holder q role h k s p = ground (
    arith,
    is_role_accepted_lem (role_of q.identifier) role h k,
    opt_eq_iff (role_of q.identifier) (some role),
  )

  -- Where a positive number of signatures of a role is counted, some DID with that role signed.
  pub get_sig_count-Signed :
      (q : Request) (role : String)
      → role ≢ ""
      → role ≢ "*"
      → 0 < get_sig_count role_of q (some role) false
      → (did : String) × Signed q did × (role_of did ≡ some role)
  get_sig_count-Signed q role h k p = elim (Bool-cases (truthy q.signature)) [
    | inl s ↦ (q.identifier, inl (s, refl), sole_holder q role h k s p)
    | inr s ↦
        let (d, i, r) = holder role q.signatures (rw (get_sig_count-holders q role s h k) at p) in
        (d, inr i, r)
  ]

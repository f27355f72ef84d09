-- ===== src/Identity/Nym/Newcomers.antt =====
-- Who can create a nym: `_validate_new_nym` of
-- indy_node/server/request_handlers/domain_req_handlers/nym_handler.py.
use indy_node.Base.{
  ℕ, String, Option, none, some, Bool, true, false, List, [], ◌∷◌, ◌≡◌, ◌≢◌, ◌⊎◌, refl, arith,
  truthy, opt_eq_iff, Option-cases, inl, inr,
}
use indy_node.Auth.Txn.{nym}
use indy_node.Auth.Action.{Action, text, as_value, auth_action_add}
use indy_node.Auth.Request.{Request}
use indy_node.Auth.Validator.{Validation}
use indy_node.Identity.Cache.{NymData}
use indy_node.Identity.Nym.{
  Codec, NymOperation, NymCheck, passed, refused, crashed, next, permit, value_or_none,
  sender_check, certifies, is_derived, derived_check, validate_new_nym,
  additional_dynamic_validation, take, same_bytes, not_first_bytes, not_first_bytes_of_hash,
}
use indy_node.Identity.Nym.Permission.{next-first}

pub next-second : (c d : NymCheck) → next c d ≡ passed → d ≡ passed
next-second passed d h = h
next-second (refused r) d h = absurd (ground (arith, h))
next-second (NymCheck.denied v) d h = absurd (ground (arith, h))
next-second crashed d h = absurd (ground (arith, h))

module _ (codec : Codec) where
  -- The DID of the operation is the encoding of the first 16 bytes that a digest makes of its
  -- verkey.
  abbrev pub Derived : (List ℕ → List ℕ) → NymOperation → Type 0
  Derived digest op =
      (verkey : String) × (key : List ℕ) × (value_or_none op.verkey ≡ some verkey)
      × (codec.b58decode verkey ≡ some key)
      × (op.dest ≡ some (codec.b58encode (take 16 (digest key))))

  derived :
      (digest : List ℕ → List ℕ) (op : NymOperation)
      → is_derived codec digest op.dest (value_or_none op.verkey) ≡ some true
      → Derived digest op
  unfolding is_derived
  derived digest op h = elim (Option-cases (value_or_none op.verkey)) [
    | inl e ↦ absurd (ground (arith, e, h))
    | inr (verkey, e) ↦ elim (Option-cases (codec.b58decode verkey)) [
      | inl f ↦ absurd (ground (arith, e, f, h))
      | inr (key, f) ↦ (
        verkey,
        key,
        e,
        f,
        ground (arith, e, f, h, opt_eq_iff op.dest (some (codec.b58encode (take 16 (digest key))))),
      )
    ]
  ]

  check-true : (o : Option Bool) (r : _) → derived_check o r ≡ passed → o ≡ some true
  check-true none r h = absurd (ground (arith, h))
  check-true (some true) r h = refl
  check-true (some false) r h = absurd (ground (arith, h))

  certifies-first :
      (op : NymOperation)
      → op.version ≡ some 1
      → certifies codec op ≡ passed
      → Derived same_bytes op
  unfolding certifies
  certifies-first op e h =
      derived same_bytes op (check-true _ not_first_bytes (ground (arith, e, h)))

  certifies-second :
      (op : NymOperation)
      → op.version ≡ some 2
      → certifies codec op ≡ passed
      → Derived codec.sha256 op
  unfolding certifies
  certifies-second op e h =
      derived codec.sha256 op (check-true _ not_first_bytes_of_hash (ground (arith, e, h)))

module _ (codec : Codec) (nym_of : String → Option NymData)
    (authorise : Request → List Action → Validation) (q : Request) (op : NymOperation) where
  -- What holds of a nym that is created.
  pub record Admitted : Type 0 where
    pub sender :
        (nym_of q.identifier ≢ none)
        ⊎ ((op.dest ≡ some q.identifier) × (truthy (value_or_none op.verkey) ≡ true))
    pub convention : op.version ≡ some 1 → Derived codec same_bytes op
    pub self_certified : op.version ≡ some 2 → Derived codec codec.sha256 op
    pub authorised :
        permit (
          authorise q
            (auth_action_add nym (some (text "role")) (as_value (value_or_none op.role)) true ∷ []))
        ≡ passed

  sender-known :
      sender_check codec nym_of authorise q op ≡ passed
      → (nym_of q.identifier ≢ none)
        ⊎ ((op.dest ≡ some q.identifier) × (truthy (value_or_none op.verkey) ≡ true))
  sender-known h = elim (Option-cases (nym_of q.identifier)) [
    | inl e ↦
        inr (ground (arith, e, h, opt_eq_iff (some q.identifier) op.dest), ground (arith, e, h))
    | inr (d, e) ↦ inl (λ k. ground (arith, e, k))
  ]

  new-Admitted : validate_new_nym codec nym_of authorise q op ≡ passed → Admitted
  unfolding validate_new_nym
  new-Admitted h =
      let asked = permit (
        authorise q (
          auth_action_add nym (some (text "role")) (as_value (value_or_none op.role)) true ∷ [])) in
      let sent = sender_check codec nym_of authorise q op in
      let rest = next-second sent (next (certifies codec op) asked) h in
      let certified = next-first (certifies codec op) asked rest in
      record {
        sender = sender-known (next-first sent (next (certifies codec op) asked) h);
        convention = λ e. certifies-first codec op e certified;
        self_certified = λ e. certifies-second codec op e certified;
        authorised = next-second (certifies codec op) asked rest;
      }

  -- A nym that is not on the ledger passes the dynamic validation only if its sender is on the
  -- ledger or creates itself and gives a verkey; if its DID is derived from its verkey as its
  -- version says; and if the request validator admits its role.
  pub dynamic-Admitted :
      (dest : String)
      → op.dest ≡ some dest
      → nym_of dest ≡ none
      → additional_dynamic_validation codec nym_of authorise q op ≡ passed
      → Admitted
  unfolding additional_dynamic_validation
  dynamic-Admitted dest e f h = new-Admitted (ground (arith, e, f, h))

-- ===== src/Domain/Attribute/Reads.antt =====
-- An attribute that is written is read back.
use indy_node.Base.{
  ℕ, String, Option, none, some, true, ◌==◌, get, put, get-put, ◌≡◌, ◌≢◌, refl, sym, ap, ◌∙◌, arith,
  eq_iff, same_eq, other_eq, Bool-cases, Option-cases, inl, inr,
}
use indy_node.Base.Json as Json
use indy_node.Base.Json.{Json}
use indy_node.Domain.Paths.{make_state_path_for_attr}
use indy_node.Domain.Definitions.{DomainState, DomainTxn, StateValue, encode_state_value}
use indy_node.Domain.Attribute.{
  AttrType, raw_attr, enc_attr, hash_attr, is_hash, AttribOp, typed_value, last_key, AttributeStore,
  Attr, nothing, found, passed, static_validation, parse_attr_txn, hashed_value, set_value,
  update_attribute, stored_value, get_attr,
}

last_key-some :
    (k : String) (j : Json) (fs : Json.Fields)
    → (l : String) × (last_key (Json.field k j fs) ≡ some l)
unfolding last_key
last_key-some k j Json.end = (k, refl)
last_key-some k j (Json.field l i fs) = last_key-some l i fs

-- The text that is read of a value.
abbrev pub text_of : Option String → String
text_of none = ""
text_of (some v) = v

-- What is parsed has a value, unless it is a hash.
abbrev pub Parsed : AttrType × String × Option String → Type 0
Parsed (hash_attr, key, value) = value ≡ none
Parsed (raw_attr, key, value) = (v : String) × (value ≡ some v)
Parsed (enc_attr, key, value) = (v : String) × (value ≡ some v)

Parsed-none : (r : AttrType × String × Option String) → Parsed r → is_hash r.0 ≡ true → r.2 ≡ none
Parsed-none (hash_attr, key, value) p h = p
Parsed-none (raw_attr, key, value) p h = absurd (ground (arith, h))
Parsed-none (enc_attr, key, value) p h = absurd (ground (arith, h))

module _ (parse : String → Option Json.Fields) (dump : Json.Fields → String)
    (sha256 : String → String) where
  pub parse-static :
      (op : AttribOp)
      → static_validation parse dump sha256 op ≡ passed
      → (r : AttrType × String × Option String) × (parse_attr_txn parse dump sha256 op ≡ some r)
        × Parsed r
  unfolding static_validation parse_attr_txn
  parse-static op h = elim (Option-cases (typed_value op.raw op.enc op.hash)) [
    | inl n ↦ absurd (ground (arith, n, h))
    | inr ((enc_attr, v), e) ↦ ((enc_attr, v, some v), rw e refl, (v, refl))
    | inr ((hash_attr, v), e) ↦ ((hash_attr, v, none), rw e refl, refl)
    | inr ((raw_attr, v), e) ↦ elim (Option-cases (parse v)) [
      | inl n ↦ absurd (ground (arith, rw (e, n, static_validation) at h))
      | inr (Json.end, f) ↦ absurd (ground (arith, rw (e, f, static_validation) at h))
      | inr (Json.field k j fs, f) ↦
          let (l, g) = last_key-some k j fs in
          (
            (raw_attr, l, some (dump (Json.field k j fs))),
            rw e (rw f (rw g refl)),
            (dump (Json.field k j fs), refl),
          )
    ]
  ]

  abbrev h_of : Option String → String
  h_of = hashed_value parse dump sha256

  put_read :
      (v : String) (attrs : AttributeStore) (seq time : ℕ)
      → ((s : String) → sha256 s ≢ "")
      → stored_value parse dump sha256
          (put (h_of (some v)) v attrs)
          (encode_state_value (Json.str (h_of (some v))) seq time)
        ≡ some (found (Json.str v) seq time)
  put_read v attrs seq time nonempty = elim (Bool-cases (v == "")) [
    | inl e ↦ rw e (ap (λ t. some (found (Json.str t) seq time)) (sym ((eq_iff v "").0 e)))
    | inr e ↦
        rw e (rw (other_eq (sha256 v) "" (nonempty v)) (rw get-put (rw (same_eq (sha256 v)) refl)))
  ]

  stored-set :
      (t : AttrType) (value : Option String) (attrs : AttributeStore) (seq time : ℕ)
      → ((s : String) → sha256 s ≢ "")
      → (is_hash t ≡ true → value ≡ none)
      → stored_value parse dump sha256
          (set_value parse dump sha256 t (h_of value) value attrs)
          (encode_state_value (Json.str (h_of value)) seq time)
        ≡ some (found (Json.str (text_of value)) seq time)
  stored-set t none attrs seq time nonempty p = refl
  stored-set raw_attr (some v) attrs seq time nonempty p = put_read v attrs seq time nonempty
  stored-set enc_attr (some v) attrs seq time nonempty p = put_read v attrs seq time nonempty
  stored-set hash_attr (some v) attrs seq time nonempty p = absurd (ground (arith, p refl))

  -- A transaction that passes the static validation is written. Then the attribute reads as its
  -- value, with the number and the time of the transaction, or as empty where the transaction gives
  -- a hash only, and what is under every other path of the state is as before. No digest is empty.
  pub get_attr-update :
      ((s : String) → sha256 s ≢ "")
      → (state : DomainState) (attrs : AttributeStore) (txn : DomainTxn AttribOp)
      → static_validation parse dump sha256 txn.content ≡ passed
      → (r : AttrType × String × Option String) × (w : DomainState × AttributeStore)
        × (parse_attr_txn parse dump sha256 txn.content ≡ some r)
        × (update_attribute parse dump sha256 state attrs txn ≡ some w)
        × (get_attr parse dump sha256 w.0 w.1 txn.content.dest r.1 r.0
            ≡ some (found (Json.str (text_of r.2)) txn.seq_no txn.txn_time))
        × ((path : String)
            → make_state_path_for_attr sha256 txn.content.dest r.1 (is_hash r.0) ≢ path
            → get path w.0 ≡ get path state)
  unfolding update_attribute get_attr
  get_attr-update nonempty state attrs txn valid =
      let ((t, key, value), e, no_value) = parse-static txn.content valid in
      let path = make_state_path_for_attr sha256 txn.content.dest key (is_hash t) in
      let v = encode_state_value (Json.str (h_of value)) txn.seq_no txn.txn_time in
      let after = set_value parse dump sha256 t (h_of value) value attrs in
      let here : get path (put path v state) ≡ some v =
        get-put path path v state ∙ rw (same_eq path) refl in
      let read : Option StateValue → Option Attr =
        λ o. elim o [ none ↦ some nothing | some w ↦ stored_value parse dump sha256 after w ] in
      (
        (t, key, value),
        (put path v state, set_value parse dump sha256 t (h_of value) value attrs),
        e,
        rw e refl,
        ap read here
            ∙ stored-set t value attrs txn.seq_no txn.txn_time nonempty
                (Parsed-none (t, key, value) no_value),
        λ p n. get-put path p v state ∙ rw (other_eq path p n) refl,
      )

-- ===== src/Reads/Written.antt =====
-- GET_ATTR reads what ATTRIB wrote: attribute_handler.py and get_attribute_handler.py.
use indy_node.Base.{
  ℕ, ◌≤◌, ◌<◌, String, Option, none, some, subst, ◌&&◌, true, false, ◌∷◌, ◌++◌, get, put, get-put,
  same_eq, ◌≡◌, refl, sym, ap, ◌∙◌, arith,
}
use indy_node.Base.Json as Json
use indy_node.Base.Json.{Json}
use indy_node.Domain.Paths.{make_state_path_for_attr}
use indy_node.Domain.Definitions.{DomainState, DomainTxn, StateValue, encode_state_value}
use indy_node.Domain.Attribute.{
  AttrType, raw_attr, enc_attr, hash_attr, is_hash, AttribOp, typed_value, AttributeStore, passed,
  static_validation, parse_attr_txn, hashed_value, set_value, update_attribute,
}
use indy_node.Domain.Attribute.Reads.{Parsed, parse-static}
use indy_node.Reads.{Ledger, looked, result, Version, lookup_version, both_given, is_given}
use indy_node.Reads.Attribute.{attr_data, attr_answer, get_attr_result}
use indy_node.Reads.Log.{StateLog, Keeps, AllAfter, lookup_version-log, Selects}

-- GET_ATTR for the key of an attribute.
abbrev pub asking : String → AttrType → (key : String) → AttribOp
asking dest raw_attr key = record { dest = dest; raw = some key; enc = none; hash = none }
asking dest enc_attr key = record { dest = dest; raw = none; enc = some key; hash = none }
asking dest hash_attr key = record { dest = dest; raw = none; enc = none; hash = some key }

typed-asking :
    (dest : String) (t : AttrType) (key : String)
    → typed_value (asking dest t key).raw (asking dest t key).enc (asking dest t key).hash
      ≡ some (t, key)
unfolding typed_value
typed-asking dest raw_attr key = refl
typed-asking dest enc_attr key = refl
typed-asking dest hash_attr key = refl

dest-asking : (dest : String) (t : AttrType) (key : String) → (asking dest t key).dest ≡ dest
dest-asking dest raw_attr key = refl
dest-asking dest enc_attr key = refl
dest-asking dest hash_attr key = refl

-- The value, or the hash itself where the transaction gives a hash only.
abbrev pub shown : AttrType × String × Option String → Option String
shown (hash_attr, key, value) = some key
shown (_, key, value) = value

-- The later store has all that an earlier one has.
abbrev pub Extends : AttributeStore → AttributeStore → Type 0
Extends later earlier = (h v : String) → get h earlier ≡ some v → get h later ≡ some v

one_given :
    (ledger : Ledger StateValue) (newer : StateLog StateValue) (time : ℕ) (v : Version)
    → Selects ledger newer time v.seq_no v.timestamp
    → both_given v ≡ false
one_given ledger newer time v h = one v.seq_no v.timestamp h
  where
    one : (n t : Option ℕ) → Selects ledger newer time n t → (is_given t && is_given n) ≡ false
    one none none h = refl
    one none (some t) h = ground arith
    one (some n) none h = refl
    one (some n) (some t) h = elim h [ ]

module _ (parse : String → Option Json.Fields) (dump : Json.Fields → String)
    (sha256 : String → String) where
  abbrev h_of : Option String → String
  h_of = hashed_value parse dump sha256

  put-Extends :
      (h v : String) (attrs later : AttributeStore)
      → Extends later (put h v attrs)
      → get h later ≡ some v
  put-Extends h v attrs later keeps = keeps h v (get-put h h v attrs ∙ rw (same_eq h) refl)

  data_shown :
      (t : AttrType) (key : String) (value : Option String) (attrs later : AttributeStore)
      → Parsed (t, key, value)
      → Extends later (set_value parse dump sha256 t (h_of value) value attrs)
      → attr_data later t key (Json.str (h_of value)) ≡ shown (t, key, value)
  data_shown hash_attr key value attrs later p keeps = refl
  data_shown raw_attr key (some v) attrs later p keeps =
      put-Extends (h_of (some v)) v attrs later keeps
  data_shown enc_attr key (some v) attrs later p keeps =
      put-Extends (h_of (some v)) v attrs later keeps
  data_shown raw_attr key none attrs later p keeps = absurd (ground (arith, p.1))
  data_shown enc_attr key none attrs later p keeps = absurd (ground (arith, p.1))

  abbrev path_of : DomainTxn AttribOp → AttrType → String → String
  path_of txn t key = make_state_path_for_attr sha256 txn.content.dest key (is_hash t)

  abbrev value_of : DomainTxn AttribOp → Option String → StateValue
  value_of txn value = encode_state_value (Json.str (h_of value)) txn.seq_no txn.txn_time

  parse_attr_txn-Parsed :
      (op : AttribOp) (r : AttrType × String × Option String)
      → static_validation parse dump sha256 op ≡ passed
      → parse_attr_txn parse dump sha256 op ≡ some r
      → Parsed r
  parse_attr_txn-Parsed op r valid e =
      let (r', e', p) = parse-static parse dump sha256 op valid in
      let same : r' ≡ r = cc (e, e') in subst Parsed same p

  written_lem :
      (state : DomainState) (attrs : AttributeStore) (txn : DomainTxn AttribOp) (t : AttrType)
      (key : String) (value : Option String) (w : DomainState × AttributeStore)
      → parse_attr_txn parse dump sha256 txn.content ≡ some (t, key, value)
      → update_attribute parse dump sha256 state attrs txn ≡ some w
      → (
        put (path_of txn t key) (value_of txn value) state,
        set_value parse dump sha256 t (h_of value) value attrs,
      )
        ≡ w
  unfolding update_attribute
  written_lem state attrs txn t key value w e written =
      let made = rw (e, update_attribute) at written in cc made

  looked_answer :
      (ledger : Ledger StateValue) (later : AttributeStore) (txn : DomainTxn AttribOp)
      (t : AttrType) (key : String) (v : Version) (s : StateValue) (proof : Option String)
      → both_given v ≡ false
      → lookup_version ledger (path_of txn t key) v.seq_no v.timestamp true ≡ looked (some s) proof
      → get_attr_result sha256 ledger later (asking txn.content.dest t key) v
        ≡ result (attr_data later t key s.val) (some (s.lsn)) (some (s.lut)) proof
  unfolding get_attr_result
  looked_answer ledger later txn t key v s proof one found =
      rw (one, get_attr_result)
        (rw (typed-asking txn.content.dest t key)
          (rw (dest-asking txn.content.dest t key) (ap (attr_answer later t key) found)))

  -- An attribute is written by a transaction that passes the static validation. Where the last
  -- batch until a time left the state after it, the attribute store has kept what it wrote, and a
  -- version selects that time, GET_ATTR for the key of the attribute and that version is answered
  -- by the attribute's value, or by the hash where the transaction gives a hash only, with the
  -- number and the time of the transaction.
  pub get_attr_result-update :
      (state : DomainState) (attrs : AttributeStore) (txn : DomainTxn AttribOp)
      (r : AttrType × String × Option String) (w : DomainState × AttributeStore)
      (ledger : Ledger StateValue) (newer older : StateLog StateValue) (u time : ℕ)
      (later : AttributeStore) (v : Version)
      → static_validation parse dump sha256 txn.content ≡ passed
      → parse_attr_txn parse dump sha256 txn.content ≡ some r
      → update_attribute parse dump sha256 state attrs txn ≡ some w
      → Keeps ledger (newer ++ (u, w.0) ∷ older)
      → AllAfter time newer
      → u ≤ time
      → 0 < time
      → Selects ledger newer time v.seq_no v.timestamp
      → Extends later w.1
      → (proof : Option String) × (get_attr_result sha256 ledger later
            (asking txn.content.dest r.0 r.1)
            v
          ≡ result (shown r) (some (txn.seq_no)) (some (txn.txn_time)) proof)
  get_attr_result-update state attrs txn (t, key, value) (after, kept) ledger newer older u time
        later v valid e written keeps before_newer before pos selects extends =
      let path = path_of txn t key in
      let same = written_lem state attrs txn t key value (after, kept) e written in
      let here : get path after ≡ some (value_of txn value) =
        ap (λ w. get path w.0) (sym same)
        ∙ get-put path path (value_of txn value) state
        ∙ rw (same_eq path) refl in
      let (proof, found) =
        lookup_version-log ledger path true newer older u after time v.seq_no v.timestamp keeps
          before_newer before pos selects in
      let extends' = subst (Extends later) (sym (ap (λ w. w.1) same)) extends in
      let parsed = parse_attr_txn-Parsed txn.content (t, key, value) valid e in
      (
        proof,
        looked_answer ledger later txn t key v (value_of txn value) proof
              (one_given ledger newer time v selects) (found ∙ ap (λ o. looked o proof) here)
            ∙ ap (λ d. result d (some (txn.seq_no)) (some (txn.txn_time)) proof)
                (data_shown t key value attrs later parsed extends'),
      )

-- ===== src/Identity/Cache.antt =====
-- indy_node/persistence/idr_cache.py: the cache of roles and verkeys, over a key-value store and an
-- encoding of lists that are parameters.
pub mod Reads
use indy_node.Base.Decimal.{str_of, int_of}
use indy_node.Base.{
  ℕ, String, Option, none, some, Bool, true, false, not, ◌&&◌, List, [], ◌∷◌, ◌≡◌, ◌≢◌, num_eq,
  truthy, opt_eq, if◌then◌else◌, ◌==◌,
}

-- `OptimisticKVStore` of the plenum library and `rlp`. A missing key is KeyError, and a batch that
-- is missing on commit is ValueError.
pub record Backend : Type 1 where
  pub Store : Type 0
  pub Bytes : Type 0
  pub store_get : Store → (key : String) (is_committed : Bool) → Option Bytes
  pub store_set : Store → (key : String) → Bytes → (is_committed : Bool) → Store
  pub create_batch_from_current : Store → (state_root : String) → Store
  pub reject_batch : Store → Store
  pub first_batch_idr : Store → Option String
  pub commit_batch : Store → Option Store
  pub rlp_encode : List String → Bytes
  pub rlp_decode : Bytes → List String

-- What the cache relies on: a value that is set is read, no other key changes, and what is encoded
-- is decoded.
pub record BackendLaws (b : Backend) : Type 0 where
  pub get_set :
      (s : b.Store) (k : String) (v : b.Bytes) (c : Bool)
      → b.store_get (b.store_set s k v c) k c ≡ some v
  pub get_other :
      (s : b.Store) (k j : String) (v : b.Bytes) (c : Bool)
      → k ≢ j
      → b.store_get (b.store_set s k v c) j c ≡ b.store_get s j c
  pub decode_encode : (l : List String) → b.rlp_decode (b.rlp_encode l) ≡ l

-- The tuple of `unpackIdrValue`. The fields `ta` and `role` are texts, which may be empty.
pub record IdrValue : Type 0 where
  pub seq_no : ℕ
  pub txn_time : Option ℕ
  pub ta : String
  pub role : String
  pub verkey : Option String

-- A value; KeyError; or the ValueError of a value that is not packed as `set` packs it.
pub data Found {ℓ} (A : Type ℓ) : Type ℓ where
  found : A → Found A
  key_error : Found A
  bad_value : Found A

-- `unsetVerkey`
abbrev pub unset_verkey : String
unset_verkey = "-"

unfoldable pub encode_verkey : Option String → String
encode_verkey none = unset_verkey
encode_verkey (some v) = v

unfoldable pub decode_verkey : String → Option String
decode_verkey v = if v == unset_verkey then none else some v

abbrev pub or_empty : Option String → String
or_empty none = ""
or_empty (some s) = s

abbrev pub str_or_empty_of : Option ℕ → String
str_or_empty_of none = ""
str_or_empty_of (some n) = str_of n

-- `packIdrValue`; `none` is the ValueError for no sequence number.
unfoldable pub pack_fields :
    Option ℕ → Option ℕ → (ta role verkey : Option String) → Option (List String)
pack_fields none txn_time ta role verkey = none
pack_fields (some n) txn_time ta role verkey =
    some (
      str_of n ∷ str_or_empty_of txn_time ∷ or_empty ta ∷ or_empty role ∷ encode_verkey verkey ∷ [])

-- `int(txnTime) if txnTime else None`, with `none` outside for ValueError
unfoldable pub read_time : String → Option (Option ℕ)
read_time t =
    if t == "" then some none else elim (int_of t) [ none ↦ none | some n ↦ some (some n) ]

unfoldable pub read_value :
    Option ℕ → Option (Option ℕ) → (ta role verkey : String) → Found IdrValue
read_value (some n) (some t) ta role verkey =
    found (record { seq_no = n; txn_time = t; ta = ta; role = role; verkey = decode_verkey verkey })
read_value none t ta role verkey = bad_value
read_value (some n) none ta role verkey = bad_value

-- `unpackIdrValue` behind `rlp.decode`
unfoldable pub unpack_fields : List String → Found IdrValue
unpack_fields (n ∷ (t ∷ (ta ∷ (role ∷ (verkey ∷ []))))) =
    read_value (int_of n) (read_time t) ta role verkey
unpack_fields _ = bad_value

-- The dictionary of `getNym`.
pub record NymData : Type 0 where
  pub role : Option String
  pub verkey : Option String
  pub identifier : Option String
  pub seq_no : Option ℕ
  pub txn_time : Option ℕ

-- `s or None`
abbrev pub or_none : String → Option String
or_none s = if s == "" then none else some s

abbrev pub text_or_none : Option String → Option String
text_or_none none = none
text_or_none (some s) = or_none s

abbrev pub num_or_none : Option ℕ → Option ℕ
num_or_none none = none
num_or_none (some n) = if num_eq n 0 then none else some n

unfoldable pub nym_data : IdrValue → NymData
nym_data v = record {
  role = or_none v.role;
  verkey = text_or_none v.verkey;
  identifier = or_none v.ta;
  seq_no = num_or_none (some v.seq_no);
  txn_time = num_or_none v.txn_time;
}

module _ (b : Backend) where
  -- `set`
  unfoldable pub cache_set :
      b.Store
      → (idr : String) → (seq_no txn_time : Option ℕ) → (ta role verkey : Option String)
      → (is_committed : Bool) → Option b.Store
  cache_set s idr seq_no txn_time ta role verkey is_committed =
      elim (pack_fields seq_no txn_time ta role verkey) [
        | none ↦ none
        | some fields ↦ some (b.store_set s idr (b.rlp_encode fields) is_committed)
      ]

  -- `get`
  unfoldable pub cache_get : b.Store → (idr : String) → (is_committed : Bool) → Found IdrValue
  cache_get s idr is_committed = elim (b.store_get s idr is_committed) [
    | none ↦ key_error
    | some value ↦ unpack_fields (b.rlp_decode value)
  ]

  -- `getVerkey` and `getRole`
  unfoldable pub get_verkey : b.Store → String → Bool → Found (Option String)
  get_verkey s idr is_committed = elim (cache_get s idr is_committed) [
    | found v ↦ found v.verkey
    | key_error ↦ key_error
    | bad_value ↦ bad_value
  ]

  unfoldable pub get_role : b.Store → String → Bool → Found String
  get_role s idr is_committed = elim (cache_get s idr is_committed) [
    | found v ↦ found v.role
    | key_error ↦ key_error
    | bad_value ↦ bad_value
  ]

  -- `getNym`: `none` inside is the result `None`.
  unfoldable pub get_nym :
      b.Store → (nym : String) (role : Option String) → Bool → Found (Option NymData)
  get_nym s nym role is_committed = elim (cache_get s nym is_committed) [
    | key_error ↦ found none
    | bad_value ↦ bad_value
    | found v ↦
        if truthy role && not (opt_eq role (some v.role))
        then found none
        else found (some (nym_data v))
  ]

  -- `getTrustee`, `getSteward` and `getEndorser` are this at their role, and `hasNym` at none.
  unfoldable pub has_nym_with : b.Store → (nym : String) (role : Option String) → Bool → Found Bool
  has_nym_with s nym role is_committed = elim (get_nym s nym role is_committed) [
    | key_error ↦ key_error
    | bad_value ↦ bad_value
    | found d ↦ elim d [ none ↦ found false | some _ ↦ found true ]
  ]

  -- `onBatchCommitted`
  unfoldable pub on_batch_committed : b.Store → (state_root : String) → b.Store
  on_batch_committed s state_root = elim (b.first_batch_idr s) [
    | none ↦ s
    | some batch_idr ↦
        if not (batch_idr == state_root)
        then s
        else elim (b.commit_batch s) [ none ↦ s | some t ↦ t ]
  ]

-- `getOwnerFor`, from what `getNym` returns
unfoldable pub owner_of : (nym : String) → Option NymData → Option String
owner_of nym none = none
owner_of nym (some d) = elim d.verkey [ none ↦ d.identifier | some _ ↦ some nym ]

-- ===== src/Identity/Cache/Reads.antt =====
-- What indy_node/persistence/idr_cache.py reads after it has set a value.
use indy_node.Base.Decimal.{str_of, int_of, int_of-str_of}
use indy_node.Base.{ℕ, String, Option, none, some, Bool, List, ◌≡◌, ◌≢◌, refl, ◌∙◌, arith, eq_iff}
use indy_node.Identity.Cache.{
  Backend, BackendLaws, IdrValue, found, encode_verkey, decode_verkey, or_empty, str_or_empty_of,
  pack_fields, read_time, read_value, unpack_fields, cache_set, cache_get,
}

-- The value that stands in the cache for the arguments of `set`.
abbrev pub value_of : ℕ → Option ℕ → (ta role verkey : Option String) → IdrValue
value_of n t ta role verkey = record {
  seq_no = n;
  txn_time = t;
  ta = or_empty ta;
  role = or_empty role;
  verkey = verkey;
}

decode-encode : (v : Option String) → v ≢ some "-" → decode_verkey (encode_verkey v) ≡ v
unfolding decode_verkey encode_verkey
decode-encode none h = refl
decode-encode (some v) h = ground (arith, h, eq_iff v "-")

int_empty : (s : String) → s ≡ "" → int_of s ≡ none
unfolding int_of
int_empty s e = rw e refl

read-time : (t : Option ℕ) → read_time (str_or_empty_of t) ≡ some t
unfolding read_time
read-time none = refl
read-time (some n) = ground (arith, int_of-str_of n, eq_iff (str_of n) "", int_empty (str_of n))

read-pack :
    (n : ℕ) (t : Option ℕ) (ta role verkey : Option String)
    → verkey ≢ some "-"
    → read_value
        (int_of (str_of n))
        (read_time (str_or_empty_of t))
        (or_empty ta)
        (or_empty role)
        (encode_verkey verkey)
      ≡ found (value_of n t ta role verkey)
unfolding read_value
read-pack n t ta role verkey h =
    rw (int_of-str_of n) (rw (read-time t) (rw (decode-encode verkey h) refl))

module _ (b : Backend) (laws : BackendLaws b) where
  get-stored :
      (s : b.Store) (idr : String) (c : Bool) (l : List String)
      → b.store_get s idr c ≡ some (b.rlp_encode l)
      → cache_get b s idr c ≡ unpack_fields l
  unfolding cache_get
  get-stored s idr c l h = rw (h, cache_get) (rw laws.decode_encode refl)

  get-same :
      (s r : b.Store) (idr : String) (c : Bool)
      → b.store_get s idr c ≡ b.store_get r idr c
      → cache_get b s idr c ≡ cache_get b r idr c
  unfolding cache_get
  get-same s r idr c h = rw (h, cache_get) refl

  -- A value that is set under a key, with a number and a verkey that is not the mark of an unset
  -- one, is read back under that key, where an absent trust anchor or role has become empty; what
  -- is read under every other key is as before.
  pub get-set :
      (s : b.Store) (idr : String) (n : ℕ) (t : Option ℕ) (ta role verkey : Option String)
      (c : Bool)
      → verkey ≢ some "-"
      → (after : b.Store) × (cache_set b s idr (some n) t ta role verkey c ≡ some after)
        × (cache_get b after idr c ≡ found (value_of n t ta role verkey))
        × ((other : String) → idr ≢ other → cache_get b after other c ≡ cache_get b s other c)
  unfolding cache_set pack_fields unpack_fields
  get-set s idr n t ta role verkey c h = (
    _,
    refl,
    get-stored _ idr c _ (laws.get_set s idr _ c) ∙ read-pack n t ta role verkey h,
    λ other ne. get-same _ s other c (laws.get_other s idr other _ c ne),
  )

-- ===== src/Identity/Writes/Coherence.antt =====
-- The cache of indy_node/persistence/idr_cache.py shows what NymHandler writes to the state.
use indy_node.Base.{
  ℕ, String, Option, none, some, false, ◌≡◌, ◌≢◌, refl, subst, sym, ap, ◌∙◌, arith, eq_iff, ◌==◌,
  get, put, get-put, if◌then◌else◌, same_eq, other_eq, Bool-cases, inl, inr,
}
use indy_node.Identity.Cache.{
  Backend, BackendLaws, IdrValue, found, NymData, nym_data, or_empty, or_none, text_or_none,
  num_or_none, cache_get, cache_set, get_nym,
}
use indy_node.Identity.Cache.Reads.{value_of, get-set}
use indy_node.Identity.Writes.{NymDetails, NymTxn, NymState, updated, update_state, update_cache}

-- What the cache gives for the details in the state.
abbrev pub shown : NymDetails → NymData
shown d = record {
  role = text_or_none d.role;
  verkey = text_or_none d.verkey;
  identifier = text_or_none d.identifier;
  seq_no = num_or_none d.seq_no;
  txn_time = num_or_none d.txn_time;
}

abbrev pub shown_if : Option NymDetails → Option NymData
shown_if none = none
shown_if (some d) = some (shown d)

or_none-or_empty : (o : Option String) → or_none (or_empty o) ≡ text_or_none o
or_none-or_empty none = refl
or_none-or_empty (some s) = refl

shown_parts :
    (n : ℕ) (t : Option ℕ) (ta role verkey : Option String)
    → nym_data (value_of n t ta role verkey) ≡ record {
      role = text_or_none role;
      verkey = text_or_none verkey;
      identifier = text_or_none ta;
      seq_no = num_or_none (some n);
      txn_time = num_or_none t;
    }
unfolding nym_data
shown_parts n t none none verkey = refl
shown_parts n t none (some r) verkey = refl
shown_parts n t (some i) none verkey = refl
shown_parts n t (some i) (some r) verkey = refl

-- The details that a transaction leaves, as the cache gives them.
shown-updated :
    (txn : NymTxn) (existing : Option NymDetails) (n : ℕ)
    → txn.seq_no ≡ some n
    → nym_data (
        value_of n txn.txn_time
          (updated txn existing).identifier
          (updated txn existing).role
          (updated txn existing).verkey)
      ≡ shown (updated txn existing)
unfolding updated
shown-updated txn existing n e =
    let d = updated txn existing in
    shown_parts n txn.txn_time d.identifier d.role d.verkey
    ∙ ap (λ o. record (shown d) { seq_no = num_or_none o }) (sym e)

get-put_same : (k : String) (d : NymDetails) (state : NymState) → get k (put k d state) ≡ some d
get-put_same k d state =
    get-put k k d state ∙ ap (λ c. if c then some d else get k state) (same_eq k)

get-put_other :
    (k j : String) (d : NymDetails) (state : NymState) → k ≢ j → get j (put k d state) ≡ get j state
get-put_other k j d state n =
    get-put k j d state ∙ ap (λ c. if c then some d else get j state) (other_eq k j n)

module _ (b : Backend) (laws : BackendLaws b) (state_key : String → String) where
  -- On what is not committed, the cache gives for every nym what the state holds.
  abbrev pub Coherent : b.Store → NymState → Type 0
  Coherent s state =
      (nym : String) → get_nym b s nym none false ≡ found (shown_if (get (state_key nym) state))

  get_nym-found :
      (s : b.Store) (nym : String) (v : IdrValue)
      → cache_get b s nym false ≡ found v
      → get_nym b s nym none false ≡ found (some (nym_data v))
  unfolding get_nym
  get_nym-found s nym v h = rw (h, get_nym) refl

  get_nym-same :
      (s t : b.Store) (nym : String)
      → cache_get b s nym false ≡ cache_get b t nym false
      → get_nym b s nym none false ≡ get_nym b t nym none false
  unfolding get_nym
  get_nym-same s t nym h = rw (h, get_nym) refl

  -- What a transaction of a nym writes to the state and to the cache leaves the two coherent.
  pub update-Coherent :
      ((i j : String) → state_key i ≡ state_key j → i ≡ j)
      → (s : b.Store) (state : NymState) (txn : NymTxn) (n : ℕ) → txn.seq_no ≡ some n
      → (update_state state_key state txn).0.verkey ≢ some "-"
      → Coherent s state
      → (after : b.Store) × (update_cache b s txn (update_state state_key state txn).0 false
          ≡ some after)
        × Coherent after (update_state state_key state txn).1
  unfolding update_state update_cache
  update-Coherent injective s state txn n e v h =
      let d = updated txn (get (state_key txn.nym) state) in
      let (after, done, read, others) =
        get-set b laws s txn.nym n txn.txn_time d.identifier d.role d.verkey false v in
      (
        after,
        ap (λ o. cache_set b s txn.nym o txn.txn_time d.identifier d.role d.verkey false) e ∙ done,
        λ nym. elim (Bool-cases (txn.nym == nym)) [
          | inl same ↦
              subst
                (λ k.
                  get_nym b after k none false
                  ≡ found (shown_if (get (state_key k) (put (state_key txn.nym) d state))))
                ((eq_iff txn.nym nym).0 same)
                (get_nym-found after txn.nym (value_of n txn.txn_time d.identifier d.role d.verkey)
                    read
                  ∙ (ap (λ x. found (some x))
                        (shown-updated txn (get (state_key txn.nym) state) n e)
                      ∙ sym (
                          ap (λ o. found (shown_if o)) (get-put_same (state_key txn.nym) d state))))
          | inr different ↦
              let ne : txn.nym ≢ nym = λ k. ground (arith, different, eq_iff txn.nym nym, k) in
              get_nym-same after s nym (others nym ne)
              ∙ (h nym
                  ∙ sym (
                      ap (λ o. found (shown_if o))
                        (get-put_other (state_key txn.nym) (state_key nym) d state
                          (λ k. ne (injective _ _ k)))))
        ],
      )

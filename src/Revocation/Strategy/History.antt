-- ===== src/Revocation/Strategy/History.antt =====
-- A registry over time: the entries that indy_node/server/revocation_strategy.py accepts one after
-- the other.
use indy_node.Base.{ℕ, ◌≡◌, refl, ◌∙◌, Bool, some, List, [], ◌∷◌}
use indy_node.Revocation.Strategy.{RevocEntry, Strategy, changed_entry, validate, valid}
use indy_node.Revocation.Strategy.Status.{is_issued, after}
use indy_node.Revocation.Strategy.Accepts.{validate_entry_iff}
use indy_node.Revocation.Strategy.Effect.{ListsMembers, is_issued-changed_entry}

module _ (legacy : List ℕ → List ℕ → List ℕ → List ℕ) (lists : ListsMembers legacy)
    (sort_legacy : Bool) (strategy : Strategy) where
  -- From one entry in the state to a later one, by entries that are validated and written; the list
  -- holds them, the last one first.
  pub data Run (start : RevocEntry) : List RevocEntry → RevocEntry → Type 0 where
    still : Run start [] start
    step :
        {txns : List RevocEntry} {current : RevocEntry} (txn : RevocEntry)
        → Run start txns current
        → validate strategy (some current) txn ≡ valid
        → Run start (txn ∷ txns) (changed_entry legacy sort_legacy strategy (some current) txn)

  -- The transactions applied to a status, the last one in the list first.
  abbrev pub replay : List RevocEntry → (ℕ → Bool) → ℕ → Bool
  replay [] status = status
  replay (txn ∷ txns) status = after txn (replay txns status)

  after-same :
      (txn : RevocEntry) (f g : ℕ → Bool) (i : ℕ) → f i ≡ g i → after txn f i ≡ after txn g i
  unfolding after
  after-same txn f g i h = rw h

  -- The status of every index after a run is that of its transactions applied to the status at the
  -- start.
  pub is_issued-Run :
      {start : RevocEntry} {txns : List RevocEntry} {current : RevocEntry}
      → Run start txns current
      → (i : ℕ) → is_issued strategy current i ≡ replay txns (is_issued strategy start) i
  is_issued-Run still i = refl
  is_issued-Run {start} (step {txns = txns} {current = current} txn run h) i =
      let d = ((validate_entry_iff strategy txn (some current)).0 h).0 in
      is_issued-changed_entry legacy lists sort_legacy strategy current txn d i
      ∙ after-same txn (is_issued strategy current) (replay txns (is_issued strategy start)) i
          (is_issued-Run run i)

-- ===== src/Upgrade/Upgrader/Process.antt =====
-- `processLedger` of indy_node/server/upgrader.py: which upgrade a node takes up after a restart.
use indy_node.Base.{ℕ, suc, ◌-◌, ◌≤◌, ◌<◌, ◌≡◌, refl, none, some, true, false, arith}
use indy_node.Upgrade.Ledger.{UpgradeTxn, get_upgrade_txn, is_start, is_cancel_of}
use indy_node.Upgrade.Ledger.Search.{
  LastBelow, NoneBetween, find_down-LastBelow, find_down-NoneBetween, find_up-NoneBetween,
  find_up-some,
}
use indy_node.Upgrade.State.{Platform, Settings, Upgrader, Outcome, returned, or_else}
use indy_node.Upgrade.Upgrader.{handle_upgrade_txn}

module _ {V : Type 0} (p : Platform V) (cfg : Settings) (now : ℕ) (txn_at : ℕ → UpgradeTxn)
    (size : ℕ) where
  -- `processLedger`. A transaction of the ledger has its number.
  unfoldable pub process_ledger : Upgrader V → Outcome V
  process_ledger s = elim (get_upgrade_txn txn_at size is_start none true) [
    | none ↦ returned s
    | some start ↦
        elim (get_upgrade_txn txn_at size (is_cancel_of start) (some (suc (or_else start.seq_no 0)))
          false) [ none ↦ handle_upgrade_txn p cfg now start s | some cancel ↦ returned s ]
  ]

  -- What is relied on of the ledger.
  abbrev pub Numbered : Type 0
  Numbered = (n : ℕ) → (txn_at n).seq_no ≡ some n

  module _ (numbered : Numbered) (s : Upgrader V) where
    process_ledger-pending :
        (n : ℕ)
        → LastBelow txn_at is_start size n
        → NoneBetween txn_at (is_cancel_of (txn_at n)) (suc n) size
        → process_ledger s ≡ handle_upgrade_txn p cfg now (txn_at n) s
    unfolding process_ledger get_upgrade_txn
    process_ledger-pending n l free =
        let after_start : NoneBetween txn_at (is_cancel_of (txn_at n))
            (suc (or_else (txn_at n).seq_no 0)) size =
          λ m a b. free m (ground (arith, a, numbered n)) b in
        rw (find_down-LastBelow txn_at is_start size n l, process_ledger)
          (rw (find_up-NoneBetween txn_at (is_cancel_of (txn_at n)) _ _ size refl after_start) refl)

    process_ledger-cancelled :
        (n m : ℕ)
        → LastBelow txn_at is_start size n
        → n < m
        → m ≤ size
        → is_cancel_of (txn_at n) (txn_at m) ≡ true
        → process_ledger s ≡ returned s
    unfolding process_ledger get_upgrade_txn
    process_ledger-cancelled n m l above below h =
        let (k, found) =
          find_up-some txn_at (is_cancel_of (txn_at n)) (suc size - suc n) (suc n) size m refl
            (omega (arith, above)) below h in
        rw (find_down-LastBelow txn_at is_start size n l, process_ledger)
          (rw (numbered n) (rw found refl))

    -- The last START of the ledger is handled, unless a later CANCEL names its version; nothing
    -- changes in that case, nor where the ledger has no START.
    pub process_ledger_lem :
        ((n : ℕ)
          → LastBelow txn_at is_start size n
          → NoneBetween txn_at (is_cancel_of (txn_at n)) (suc n) size
          → process_ledger s ≡ handle_upgrade_txn p cfg now (txn_at n) s)
        × ((n m : ℕ)
            → LastBelow txn_at is_start size n
            → n < m
            → m ≤ size
            → is_cancel_of (txn_at n) (txn_at m) ≡ true
            → process_ledger s ≡ returned s)
        × (NoneBetween txn_at is_start 1 size → process_ledger s ≡ returned s)
    unfolding process_ledger get_upgrade_txn
    process_ledger_lem = (
      process_ledger-pending,
      process_ledger-cancelled,
      λ h. rw (find_down-NoneBetween txn_at is_start size h, process_ledger) refl,
    )

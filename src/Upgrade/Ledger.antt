-- ===== src/Upgrade/Ledger.antt =====
-- The transactions of the config ledger as indy_node/server/upgrader.py reads them. The ledger
-- itself is a parameter: its size and `getBySeqNo`, from number 1 on.
pub mod Search
use Prim.Native.String as Text
use Prim.Native.Nat.{◌%◌, ◌/◌}
use indy_node.Base.Decimal.{str_of}
use indy_node.Base.{
  ℕ, zero, suc, ◌-◌, ◌+◌, String, Option, none, some, Bool, true, false, ◌&&◌, List, ltb, num_eq,
  if◌then◌else◌, ◌==◌,
}

pub record UpgradeTxn : Type 0 where
  pub txn_type : String
  pub sender : String
  pub req_id : ℕ
  pub seq_no : Option ℕ
  pub is_forced : Bool
  pub action : String
  pub version : String
  pub justification : Option String
  pub pkg_name : Option String
  pub schedule : Option (List (String × String))
  pub timeout : Option ℕ

-- `get_seq_no(txn) or ''`
abbrev pub seq_no_or_empty : Option ℕ → String
seq_no_or_empty none = ""
seq_no_or_empty (some n) = if num_eq n 0 then "" else str_of n

unfoldable pub get_action_id : UpgradeTxn → String
get_action_id txn =
    Text.◌++◌ (str_of txn.req_id) (if txn.is_forced then "" else seq_no_or_empty txn.seq_no)

module _ {T : Type 0} (txn_at : ℕ → T) where
  -- The traversal from a number down to 1.
  unfoldable pub find_down : (T → Bool) → ℕ → Option T
  find_down predicate zero = none
  find_down predicate (suc n) =
      let rest = find_down predicate n in
      if predicate (txn_at (suc n)) then some (txn_at (suc n)) else rest

  -- The traversal up from a number, with the count of the numbers that are left.
  unfoldable pub find_up : (T → Bool) → (left seq_no : ℕ) → Option T
  find_up predicate zero seq_no = none
  find_up predicate (suc left) seq_no =
      let rest = find_up predicate left (suc seq_no) in
      if predicate (txn_at seq_no) then some (txn_at seq_no) else rest

  -- `get_upgrade_txn`
  unfoldable pub get_upgrade_txn :
      (size : ℕ) → (T → Bool) → (start_no : Option ℕ) → (reverse : Bool) → Option T
  get_upgrade_txn size predicate none true = find_down predicate size
  get_upgrade_txn size predicate (some start_no) true = find_down predicate start_no
  get_upgrade_txn size predicate none false = find_up predicate size 1
  get_upgrade_txn size predicate (some start_no) false =
      find_up predicate (suc size - start_no) start_no

module _ (txn_at : ℕ → UpgradeTxn) where
  -- `get_last_node_upgrade_txn`
  unfoldable pub get_last_node_upgrade_txn :
      (node_id : String) (size : ℕ) → Option ℕ → Option UpgradeTxn
  get_last_node_upgrade_txn node_id size start_no =
      get_upgrade_txn txn_at size (λ txn. (txn.txn_type == "110") && (txn.sender == node_id))
        start_no true

abbrev pub is_start : UpgradeTxn → Bool
is_start txn = (txn.txn_type == "109") && (txn.action == "start")

abbrev pub is_cancel_of : UpgradeTxn → UpgradeTxn → Bool
is_cancel_of start txn =
    (txn.txn_type == "109") && ((txn.action == "cancel") && (txn.version == start.version))

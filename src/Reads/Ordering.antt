-- ===== src/Reads/Ordering.antt =====
-- The flag of the config ledger that selects the order of revocation indices: `use_legacy_sort` of
-- revoc_reg_entry_handler.py, over get_flag_handler.py.
use indy_node.Base.{ℕ, String, Option, none, some, Bool}
use indy_node.Revocation.Handler.{use_legacy_sort}
use indy_node.Reads.{Ledger}
use indy_node.Reads.Flags.{FlagState, get_state_value, lookup_key}

abbrev pub compat_ordering : String
compat_ordering = "REV_STRATEGY_USE_COMPAT_ORDERING"

-- `use_legacy_sort` of a transaction with a time; `none` is ValueError.
unfoldable pub use_legacy_sort_at : Ledger FlagState → (txn_time : ℕ) → Bool → Option Bool
use_legacy_sort_at ledger txn_time legacy_sort_config =
    elim (lookup_key ledger compat_ordering none (some txn_time)) [
      | none ↦ none
      | some state ↦ some (use_legacy_sort (get_state_value state) legacy_sort_config)
    ]

-- ===== src/Upgrade/Log.antt =====
-- indy_node/server/action_log.py and upgrade_log.py: the append-only log of upgrade events. The
-- list holds the newest event first; times are counted in microseconds. The file that mirrors the
-- list is not modelled.
use indy_node.Base.{
  ℕ, String, Option, none, some, Bool, true, false, ◌&&◌, List, [], ◌∷◌, num_eq, ◌==◌,
}

pub data Events : Type 0 where
  scheduled started succeeded failed cancelled : Events

module _ (V : Type 0) where
  pub record UpgradeLogData : Type 0 where
    pub when : ℕ
    pub version : V
    pub upgrade_id : String
    pub pkg_name : String

  pub record LogEvent : Type 0 where
    pub ts : ℕ
    pub ev_type : Events
    pub ev_data : UpgradeLogData

module _ {V : Type 0} where
  -- `_append`
  abbrev pub append : ℕ → Events → UpgradeLogData V → List (LogEvent V) → List (LogEvent V)
  append now ev_type ev_data log = record { ts = now; ev_type = ev_type; ev_data = ev_data } ∷ log

  abbrev pub last_event : List (LogEvent V) → Option (LogEvent V)
  last_event [] = none
  last_event (e ∷ log) = some e

  -- `__eq__` compares every field.
  unfoldable pub data_eq : (V → V → Bool) → UpgradeLogData V → UpgradeLogData V → Bool
  data_eq same d e =
      num_eq d.when e.when
      && (same d.version e.version && (d.upgrade_id == e.upgrade_id && d.pkg_name == e.pkg_name))

-- `ev_type in FINALIZING_EVENT_TYPES`
abbrev pub is_finalizing : Events → Bool
is_finalizing succeeded = true
is_finalizing failed = true
is_finalizing _ = false

abbrev pub is_failed : Events → Bool
is_failed failed = true
is_failed _ = false

abbrev pub is_started : Events → Bool
is_started started = true
is_started _ = false

-- ===== src/Upgrade/Upgrader.antt =====
-- indy_node/server/upgrader.py: how the `Upgrader` starts, sends its request and handles
-- transactions.
pub mod Process
pub mod Consistency
pub mod Repeats
pub mod Sending
use Prim.Native.String as Text
use Prim.Native.Char.{Char}
use indy_node.Base.{
  ℕ, zero, suc, ◌+◌, ◌*◌, ◌-◌, String, Option, none, some, Bool, true, false, not, ◌&&◌, ◌||◌, List,
  [], ◌∷◌, ltb, num_eq, if◌then◌else◌, ◌==◌, get, has_key,
}
use Prim.Native.Nat.{◌%◌, ◌/◌}
use indy_node.Upgrade.Log.{
  Events, scheduled, started, succeeded, failed, cancelled, UpgradeLogData, LogEvent, append,
  last_event, data_eq, is_finalizing, is_failed, is_started,
}
use indy_node.Upgrade.Ledger.{UpgradeTxn, get_action_id}
use indy_node.Upgrade.State.{
  Outcome, Platform, Settings, Upgrader, action_failed, call, cancel_scheduled_upgrade,
  default_action_timeout, get_timeout, key_error, log, notify_complete, or_else, retry_limit,
  returned, schedule_action, schedule_timeout, send_message, unschedule_action, value_error,
}

module _ {V : Type 0} where
  abbrev pub already_performed : String → List (LogEvent V) → Bool
  already_performed upgrade_id events = elim (last_event events) [
    | none ↦ false
    | some last ↦ (last.ev_data.upgrade_id == upgrade_id) && is_finalizing last.ev_type
  ]

module _ {V : Type 0} (p : Platform V) where
  -- The loop of `_sendUpgradeRequest`: whether the attempt with a number reaches the control tool
  -- is `reaches`. The result is what is left of the retry limit.
  unfoldable pub send_loop :
      (reaches : ℕ → Bool) (attempt retries : ℕ) → UpgradeLogData V → Upgrader V → ℕ × Upgrader V
  send_loop reaches attempt zero ev_data s = (0, s)
  send_loop reaches attempt (suc retries) ev_data s =
      let sent = call (send_message (p.full ev_data.version) ev_data.pkg_name) s in
      let rest = send_loop reaches (suc attempt) retries ev_data sent in
      if reaches attempt then (suc retries, sent) else rest

  -- `_sendUpgradeRequest`
  unfoldable pub after_sending : UpgradeLogData V → ℕ → ℕ × Upgrader V → Upgrader V
  after_sending ev_data fail_timeout (zero, s) =
      unschedule_action
        (action_failed ev_data "problems in communication with node control service" s)
  after_sending ev_data fail_timeout (suc retries, s) =
      call (schedule_timeout ev_data (get_timeout fail_timeout)) s

  unfoldable pub send_request :
      (reaches : ℕ → Bool) → UpgradeLogData V → ℕ → Upgrader V → Upgrader V
  send_request reaches ev_data fail_timeout s =
      after_sending ev_data fail_timeout (send_loop reaches 0 retry_limit ev_data s)

  -- `didLastExecutedUpgradeSucceeded`
  unfoldable pub last_upgrade_succeeded : Upgrader V → Bool
  last_upgrade_succeeded s = elim (last_event s.action_log) [
    | none ↦ false
    | some last ↦ elim (p.curr_pkg_info last.ev_data.pkg_name) [
      | none ↦ false
      | some (upstream, deps) ↦ p.same_version upstream last.ev_data.version
    ]
  ]

  -- `process_action_log_for_first_run`, with `_is_action_started` and
  -- `_update_action_log_for_started_action`
  unfoldable pub process_action_log_for_first_run : ℕ → Upgrader V → Upgrader V
  process_action_log_for_first_run now s =
      let notifying = record s { should_notify = true } in
      let succeeds = last_upgrade_succeeded s in
      elim (last_event s.action_log) [
        | none ↦ s
        | some last ↦
            if not (is_started last.ev_type)
            then s
            else if succeeds
            then call (notify_complete last.ev_data) (log now succeeded last.ev_data notifying)
            else action_failed last.ev_data "unknown reason" (log now failed last.ev_data notifying)
      ]

  -- The last part of START: nothing where the same upgrade is scheduled, in place of another one
  -- otherwise.
  unfoldable pub replace_scheduled :
      ℕ → Option String → UpgradeLogData V → ℕ → Upgrader V → Upgrader V
  replace_scheduled now justification ev_data fail_timeout s = elim s.scheduled_action [
    | none ↦ schedule_action now ev_data fail_timeout s
    | some old ↦
        if data_eq p.same_version old ev_data
        then s
        else schedule_action now ev_data fail_timeout (cancel_scheduled_upgrade now justification s)
  ]

  -- START of a node that the schedule names, at its date.
  unfoldable pub start_at :
      ℕ → UpgradeTxn → (pkg_name : String) → V → (date : String) → Upgrader V → Outcome V
  start_at now txn pkg_name version date s =
      if already_performed (get_action_id txn) s.action_log
      then returned s
      else elim (p.parse_date date) [
        | none ↦ value_error
        | some when ↦ returned (
            replace_scheduled now txn.justification
              (record {
                when = when;
                version = version;
                upgrade_id = get_action_id txn;
                pkg_name = pkg_name;
              })
              (or_else txn.timeout default_action_timeout) s)
      ]

  unfoldable pub handle_start :
      Settings → ℕ → UpgradeTxn → (pkg_name : String) → V → Upgrader V → Outcome V
  handle_start cfg now txn pkg_name version s = elim txn.schedule [
    | none ↦ key_error
    | some schedule ↦ elim (get cfg.node_id schedule) [
      | none ↦ returned s
      | some date ↦ start_at now txn pkg_name version date s
    ]
  ]

  unfoldable pub handle_cancel : ℕ → UpgradeTxn → V → Upgrader V → Upgrader V
  handle_cancel now txn version s = elim s.scheduled_action [
    | none ↦ s
    | some ev_data ↦
        if p.same_version ev_data.version version
        then cancel_scheduled_upgrade now txn.justification s
        else s
  ]

  -- `handleUpgradeTxn`
  unfoldable pub handle_upgrade_txn : Settings → ℕ → UpgradeTxn → Upgrader V → Outcome V
  handle_upgrade_txn cfg now txn s =
      let pkg_name = or_else txn.pkg_name cfg.upgrade_entry in
      if not (txn.txn_type == "109")
      then returned s
      else elim (p.parse_version pkg_name txn.version) [
        | none ↦ returned s
        | some version ↦
            if txn.action == "start"
            then handle_start cfg now txn pkg_name version s
            else if txn.action == "cancel"
            then returned (handle_cancel now txn version s)
            else returned s
      ]

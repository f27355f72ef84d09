-- ===== src/Upgrade/State.antt =====
-- The state of `Upgrader` in indy_node/server/upgrader.py, and the operations on it that need no
-- transaction. The state is the scheduled upgrade, the log, the flag about a notice, and the calls
-- to code that is not the upgrader's own, the newest first.
use indy_node.Base.{
  ℕ, ◌*◌, ◌-◌, String, Option, none, some, Bool, false, ◌&&◌, List, [], ◌∷◌, ltb, if◌then◌else◌,
}
use Prim.Native.Nat.{◌%◌}
use indy_node.Upgrade.Log.{
  Events, scheduled, started, cancelled, UpgradeLogData, LogEvent, append, last_event, data_eq,
  is_failed,
}

module _ (V : Type 0) where
  -- Calls of the notifier, of the action queue, of the node's callbacks and of the control tool.
  pub data Call : Type 0 where
    schedule_upgrade : (ev_data : UpgradeLogData V) (fail_timeout delay : ℕ) → Call
    schedule_timeout : (ev_data : UpgradeLogData V) (delay : ℕ) → Call
    clear_stash : Call
    send_upgrade_request : (ev_data : UpgradeLogData V) (fail_timeout : ℕ) → Call
    send_message : (version pkg_name : String) → Call
    notify_scheduled : UpgradeLogData V → Call
    notify_cancelled : UpgradeLogData V → (why : String) → Call
    notify_failed : UpgradeLogData V → (reason : String) → Call
    notify_complete : UpgradeLogData V → Call
    action_start_callback action_failed_callback : Call

  -- What the upgrader takes from packages and from the system: `src_version_cls(pkg)(version)` with
  -- `none` for InvalidVersionError, the comparisons of versions, `dateutil.parser.parse` with
  -- `none` for ValueError, and the installed version and dependencies of a package.
  pub record Platform : Type 0 where
    pub parse_version : (pkg_name version : String) → Option V
    pub same_version : V → V → Bool
    pub newer : V → V → Bool
    pub full : V → String
    pub parse_date : String → Option ℕ
    pub curr_pkg_info : String → Option (V × List String)

  pub record Upgrader : Type 0 where
    pub scheduled_action : Option (UpgradeLogData V)
    pub action_log : List (LogEvent V)
    pub should_notify : Bool
    pub calls : List Call

  -- An operation returns the state, or raises KeyError or ValueError before it changes anything.
  pub data Outcome : Type 0 where
    returned : Upgrader → Outcome
    key_error : Outcome
    value_error : Outcome

pub record Settings : Type 0 where
  pub node_id : String
  pub upgrade_entry : String

-- `defaultActionTimeout`, in minutes
abbrev pub default_action_timeout : ℕ
default_action_timeout = 10

abbrev pub retry_limit : ℕ
retry_limit = 3

-- `timedelta(minutes=timeout).seconds`: the seconds of the timedelta without its days.
unfoldable pub get_timeout : ℕ → ℕ
get_timeout timeout = (timeout * 60) % 86400

abbrev pub or_else {ℓ} : {A : Type ℓ} → Option A → A → A
or_else none a = a
or_else (some a) b = a

module _ {V : Type 0} where
  abbrev pub call : Call V → Upgrader V → Upgrader V
  call c s = record s { calls = c ∷ s.calls }

  abbrev pub log : ℕ → Events → UpgradeLogData V → Upgrader V → Upgrader V
  log now ev_type ev_data s = record s { action_log = append now ev_type ev_data s.action_log }

  -- `__init__` before the log is looked at
  abbrev pub init : List (LogEvent V) → Upgrader V
  init events = record {
    scheduled_action = none;
    action_log = events;
    should_notify = false;
    calls = [];
  }

  -- `_unscheduleAction`
  unfoldable pub unschedule_action : Upgrader V → Upgrader V
  unschedule_action s = record s { scheduled_action = none; calls = clear_stash ∷ s.calls }

  -- `_scheduleUpgrade`
  unfoldable pub schedule_action : ℕ → UpgradeLogData V → ℕ → Upgrader V → Upgrader V
  schedule_action now ev_data fail_timeout s =
      let delay = if ltb now ev_data.when then ev_data.when - now else 0 in
      let logged = log now scheduled ev_data (call (notify_scheduled ev_data) s) in
      call (schedule_upgrade ev_data fail_timeout delay)
        (record logged { scheduled_action = some ev_data })

  -- `_cancelScheduledUpgrade`
  unfoldable pub cancel_scheduled_upgrade : ℕ → Option String → Upgrader V → Upgrader V
  cancel_scheduled_upgrade now justification s = elim s.scheduled_action [
    | none ↦ s
    | some ev_data ↦
        call (notify_cancelled ev_data (or_else justification "cancellation reason not specified"))
          (log now cancelled ev_data (unschedule_action s))
  ]

  -- `_callUpgradeAgent`
  unfoldable pub call_upgrade_agent : ℕ → UpgradeLogData V → ℕ → Upgrader V → Upgrader V
  call_upgrade_agent now ev_data fail_timeout s =
      let logged = call action_start_callback (log now started ev_data s) in
      call (send_upgrade_request ev_data fail_timeout) (record logged { scheduled_action = none })

  -- `_action_failed`
  abbrev pub action_failed : UpgradeLogData V → String → Upgrader V → Upgrader V
  action_failed ev_data reason s = call (notify_failed ev_data reason) s

  -- `_declareTimeoutExceeded`
  unfoldable pub declare_timeout_exceeded :
      (V → V → Bool) → UpgradeLogData V → Upgrader V → Upgrader V
  declare_timeout_exceeded same ev_data s =
      let expired =
        call action_failed_callback
          (unschedule_action (action_failed ev_data "exceeded upgrade timeout" s)) in
      elim (last_event s.action_log) [
        | none ↦ expired
        | some last ↦
            if is_failed last.ev_type && data_eq same last.ev_data ev_data then s else expired
      ]

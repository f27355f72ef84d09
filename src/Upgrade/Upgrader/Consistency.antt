-- ===== src/Upgrade/Upgrader/Consistency.antt =====
-- The operations of indy_node/server/upgrader.py as steps, and that the log always shows what is
-- scheduled.
use indy_node.Base.{
  ℕ, ◌≡◌, refl, subst, String, Option, none, some, Bool, List, arith, ◌&&◌, Option-cases,
  Bool-cases, inl, inr, ◌==◌, get,
}
use indy_node.Upgrade.Log.{
  scheduled, UpgradeLogData, LogEvent, last_event, data_eq, is_failed, is_started,
}
use indy_node.Upgrade.Ledger.{UpgradeTxn, get_action_id}
use indy_node.Upgrade.State.{
  Platform, Settings, Upgrader, Outcome, returned, schedule_action, cancel_scheduled_upgrade,
  unschedule_action, call_upgrade_agent, declare_timeout_exceeded, or_else, retry_limit, call, init,
  action_failed, action_failed_callback,
}
use indy_node.Upgrade.Upgrader.{
  handle_upgrade_txn, handle_start, start_at, handle_cancel, replace_scheduled, send_request,
  send_loop, after_sending, process_action_log_for_first_run, already_performed,
}

module _ {V : Type 0} where
  -- The log shows an upgrade that is scheduled as its last event.
  abbrev pub ShowsScheduled : Upgrader V → Type 0
  ShowsScheduled s =
      (d : UpgradeLogData V)
      → s.scheduled_action ≡ some d
      → (e : LogEvent V) × (last_event s.action_log ≡ some e)
        × (e.ev_type ≡ scheduled)
        × (e.ev_data ≡ d)

  nothing_scheduled : (s : Upgrader V) → s.scheduled_action ≡ none → ShowsScheduled s
  nothing_scheduled s h d e = absurd (ground (arith, h, e))

  schedule_action-Shows :
      (now : ℕ) (d : UpgradeLogData V) (t : ℕ) (s : Upgrader V)
      → ShowsScheduled (schedule_action now d t s)
  unfolding schedule_action
  schedule_action-Shows now d t s e h = (_, refl, refl, ground (arith, h))

  cancel-Shows :
      (now : ℕ) (why : Option String) (s : Upgrader V)
      → ShowsScheduled s
      → ShowsScheduled (cancel_scheduled_upgrade now why s)
  unfolding cancel_scheduled_upgrade unschedule_action
  cancel-Shows now why s h = elim (Option-cases s.scheduled_action) [
    | inl e ↦ rw (e, cancel_scheduled_upgrade) h
    | inr (d, e) ↦ rw (e, cancel_scheduled_upgrade) (λ d' same. absurd (ground (arith, same)))
  ]

module _ {V : Type 0} (p : Platform V) (cfg : Settings) where
  replace-Shows :
      (now : ℕ) (why : Option String) (d : UpgradeLogData V) (t : ℕ) (s : Upgrader V)
      → ShowsScheduled s
      → ShowsScheduled (replace_scheduled p now why d t s)
  unfolding replace_scheduled
  replace-Shows now why d t s h = elim (Option-cases s.scheduled_action) [
    | inl e ↦ rw (e, replace_scheduled) (schedule_action-Shows now d t s)
    | inr (old, e) ↦ elim (Bool-cases (data_eq p.same_version old d)) [
      | inl same ↦ rw (e, replace_scheduled) (rw same h)
      | inr other ↦ rw (e, replace_scheduled) (rw other (schedule_action-Shows now d t _))
    ]
  ]

  handle_cancel-Shows :
      (now : ℕ) (txn : UpgradeTxn) (v : V) (s : Upgrader V)
      → ShowsScheduled s
      → ShowsScheduled (handle_cancel p now txn v s)
  unfolding handle_cancel
  handle_cancel-Shows now txn v s h = elim (Option-cases s.scheduled_action) [
    | inl e ↦ rw (e, handle_cancel) h
    | inr (old, e) ↦ elim (Bool-cases (p.same_version old.version v)) [
      | inl same ↦ rw (e, handle_cancel) (rw same (cancel-Shows now txn.justification s h))
      | inr other ↦ rw (e, handle_cancel) (rw other h)
    ]
  ]

  -- What an outcome returns shows what it has scheduled.
  abbrev OutcomeShows : Outcome V → Type 0
  OutcomeShows (returned t) = ShowsScheduled t
  OutcomeShows _ = Unit

  start_at-Shows :
      (now : ℕ) (txn : UpgradeTxn) (pkg : String) (v : V) (date : String) (s : Upgrader V)
      → ShowsScheduled s
      → OutcomeShows (start_at p now txn pkg v date s)
  unfolding start_at
  start_at-Shows now txn pkg v date s h =
      elim (Bool-cases (already_performed (get_action_id txn) s.action_log)) [
        | inl e ↦ rw (e, start_at) h
        | inr e ↦ elim (Option-cases (p.parse_date date)) [
          | inl f ↦ rw (e, start_at) (rw f tt)
          | inr (when, f) ↦ rw (e, start_at) (rw f (replace-Shows now _ _ _ s h))
        ]
      ]

  handle_start-Shows :
      (now : ℕ) (txn : UpgradeTxn) (pkg : String) (v : V) (s : Upgrader V)
      → ShowsScheduled s
      → OutcomeShows (handle_start p cfg now txn pkg v s)
  unfolding handle_start
  handle_start-Shows now txn pkg v s h = elim (Option-cases txn.schedule) [
    | inl e ↦ rw (e, handle_start) tt
    | inr (sch, e) ↦ elim (Option-cases (get cfg.node_id sch)) [
      | inl f ↦ rw (e, handle_start) (rw f h)
      | inr (date, f) ↦ rw (e, handle_start) (rw f (start_at-Shows now _ pkg v date s h))
    ]
  ]

  handle-Shows :
      (now : ℕ) (txn : UpgradeTxn) (s : Upgrader V)
      → ShowsScheduled s
      → OutcomeShows (handle_upgrade_txn p cfg now txn s)
  unfolding handle_upgrade_txn
  handle-Shows now txn s h = elim (Bool-cases (txn.txn_type == "109")) [
    | inr e ↦ rw (e, handle_upgrade_txn) h
    | inl e ↦
        elim (Option-cases (p.parse_version (or_else txn.pkg_name cfg.upgrade_entry) txn.version)) [
          | inl f ↦ rw (e, handle_upgrade_txn) (rw f h)
          | inr (v, f) ↦ elim (Bool-cases (txn.action == "start")) [
            | inl g ↦ rw (e, handle_upgrade_txn) (rw f (rw g (handle_start-Shows now txn _ v s h)))
            | inr g ↦ elim (Bool-cases (txn.action == "cancel")) [
              | inl k ↦
                  rw (e, handle_upgrade_txn)
                    (rw f (rw g (rw k (handle_cancel-Shows now txn v s h))))
              | inr k ↦ rw (e, handle_upgrade_txn) (rw f (rw g (rw k h)))
            ]
          ]
        ]
  ]

  -- One operation of the upgrader, at some time, with the outcome of each attempt to reach the
  -- control tool.
  pub data Step : Upgrader V → Upgrader V → Type 0 where
    transaction :
        {s t : Upgrader V} (now : ℕ) (txn : UpgradeTxn)
        → handle_upgrade_txn p cfg now txn s ≡ returned t
        → Step s t
    time_comes :
        {s : Upgrader V} (now : ℕ) (d : UpgradeLogData V) (timeout : ℕ)
        → Step s (call_upgrade_agent now d timeout s)
    sends :
        {s : Upgrader V} (reaches : ℕ → Bool) (d : UpgradeLogData V) (timeout : ℕ)
        → Step s (send_request p reaches d timeout s)
    times_out :
        {s : Upgrader V} (d : UpgradeLogData V)
        → Step s (declare_timeout_exceeded p.same_version d s)

  -- A node starts from the log that it reads, with nothing scheduled.
  pub data Reached (events : List (LogEvent V)) : Upgrader V → Type 0 where
    restarted : (now : ℕ) → Reached events (process_action_log_for_first_run p now (init events))
    after : {s t : Upgrader V} → Reached events s → Step s t → Reached events t

  after_sending-Shows :
      (d : UpgradeLogData V) (timeout : ℕ) (r : ℕ × Upgrader V)
      → ShowsScheduled r.1
      → ShowsScheduled (after_sending p d timeout r)
  unfolding after_sending unschedule_action
  after_sending-Shows d timeout (ℕ.zero, s) h = λ d' same. absurd (ground (arith, same))
  after_sending-Shows d timeout (ℕ.suc n, s) h = h

  send_loop-Shows :
      (reaches : ℕ → Bool) (k n : ℕ) (d : UpgradeLogData V) (s : Upgrader V)
      → ShowsScheduled s
      → ShowsScheduled (send_loop p reaches k n d s).1
  unfolding send_loop
  send_loop-Shows reaches k ℕ.zero d s h = h
  send_loop-Shows reaches k (ℕ.suc n) d s h = elim (Bool-cases (reaches k)) [
    | inl e ↦ rw e h
    | inr e ↦ rw e (send_loop-Shows reaches (ℕ.suc k) n d _ h)
  ]

  send_request-Shows :
      (reaches : ℕ → Bool) (d : UpgradeLogData V) (timeout : ℕ) (s : Upgrader V)
      → ShowsScheduled s
      → ShowsScheduled (send_request p reaches d timeout s)
  unfolding send_request
  send_request-Shows reaches d timeout s h =
      after_sending-Shows d timeout _ (send_loop-Shows reaches 0 retry_limit d s h)

  expired-Shows :
      (d : UpgradeLogData V) (why : String) (s : Upgrader V)
      → ShowsScheduled (call action_failed_callback (unschedule_action (action_failed d why s)))
  unfolding unschedule_action
  expired-Shows d why s d' same = absurd (ground (arith, same))

  declare-Shows :
      (d : UpgradeLogData V) (s : Upgrader V)
      → ShowsScheduled s
      → ShowsScheduled (declare_timeout_exceeded p.same_version d s)
  unfolding declare_timeout_exceeded
  declare-Shows d s h = elim (Option-cases (last_event s.action_log)) [
    | inl e ↦ rw (e, declare_timeout_exceeded) (expired-Shows d _ s)
    | inr (last, e) ↦
        elim (Bool-cases (is_failed last.ev_type && data_eq p.same_version last.ev_data d)) [
          | inl f ↦ rw (e, declare_timeout_exceeded) (rw f h)
          | inr f ↦ rw (e, declare_timeout_exceeded) (rw f (expired-Shows d _ s))
        ]
  ]

  agent-Shows :
      (now : ℕ) (d : UpgradeLogData V) (timeout : ℕ) (s : Upgrader V)
      → ShowsScheduled (call_upgrade_agent now d timeout s)
  unfolding call_upgrade_agent
  agent-Shows now d timeout s d' same = absurd (ground (arith, same))

  Step-Shows : {s t : Upgrader V} → Step s t → ShowsScheduled s → ShowsScheduled t
  Step-Shows (transaction {s = s} now txn e) h = subst OutcomeShows e (handle-Shows now txn s h)
  Step-Shows (time_comes {s = s} now d timeout) h = agent-Shows now d timeout s
  Step-Shows (sends {s = s} reaches d timeout) h = send_request-Shows reaches d timeout s h
  Step-Shows (times_out {s = s} d) h = declare-Shows d s h

  restart-idle :
      (now : ℕ) (s : Upgrader V)
      → (process_action_log_for_first_run p now s).scheduled_action ≡ s.scheduled_action
  unfolding process_action_log_for_first_run
  restart-idle now s = elim (Option-cases (last_event s.action_log)) [
    | inl e ↦ rw (e, process_action_log_for_first_run) refl
    | inr (last, e) ↦ elim (Bool-cases (is_started last.ev_type)) [
      | inl f ↦ rw (e, process_action_log_for_first_run) (ground (arith, f))
      | inr f ↦ rw (e, process_action_log_for_first_run) (rw f refl)
    ]
  ]

  -- In every state that is reached, the last event of the log is that the scheduled upgrade was
  -- scheduled, where one is.
  pub Reached-ShowsScheduled :
      {events : List (LogEvent V)} {s : Upgrader V} → Reached events s → ShowsScheduled s
  Reached-ShowsScheduled {events} (restarted now) =
      nothing_scheduled (process_action_log_for_first_run p now (init events))
        (restart-idle now (init events))
  Reached-ShowsScheduled (after r step) = Step-Shows step (Reached-ShowsScheduled r)

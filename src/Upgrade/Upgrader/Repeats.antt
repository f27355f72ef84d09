-- ===== src/Upgrade/Upgrader/Repeats.antt =====
-- Handling a transaction of indy_node/server/upgrader.py again.
use indy_node.Base.{
  ℕ, ◌≡◌, refl, ap, subst, sym, ◌∙◌, String, Option, none, some, true, false, arith, Option-cases,
  Bool-cases, inl, inr, ◌==◌, get, same_eq, num_eq_iff,
}
use indy_node.Upgrade.Log.{UpgradeLogData, data_eq}
use indy_node.Upgrade.Ledger.{UpgradeTxn, get_action_id}
use indy_node.Upgrade.State.{
  Platform, Settings, Upgrader, Outcome, returned, key_error, value_error, schedule_action,
  cancel_scheduled_upgrade, unschedule_action, or_else, default_action_timeout,
}
use indy_node.Upgrade.Upgrader.{
  handle_upgrade_txn, handle_start, start_at, handle_cancel, replace_scheduled, already_performed,
}

module _ {V : Type 0} (p : Platform V) (refl_same : (v : V) → p.same_version v v ≡ true) where
  data_eq_refl : (d : UpgradeLogData V) → data_eq p.same_version d d ≡ true
  unfolding data_eq
  data_eq_refl d = ground (
    arith,
    num_eq_iff d.when d.when,
    refl_same d.version,
    same_eq d.upgrade_id,
    same_eq d.pkg_name,
  )

  -- The upgrade is scheduled.
  abbrev Has : UpgradeLogData V → Upgrader V → Type 0
  Has d s =
      (old : UpgradeLogData V) × (s.scheduled_action ≡ some old)
      × (data_eq p.same_version old d ≡ true)

  schedule-Has :
      (now : ℕ) (d : UpgradeLogData V) (t : ℕ) (s : Upgrader V) → Has d (schedule_action now d t s)
  unfolding schedule_action
  schedule-Has now d t s = (d, refl, data_eq_refl d)

  replace-Has :
      (now : ℕ) (why : Option String) (d : UpgradeLogData V) (t : ℕ) (s : Upgrader V)
      → Has d (replace_scheduled p now why d t s)
  unfolding replace_scheduled
  replace-Has now why d t s = elim (Option-cases s.scheduled_action) [
    | inl e ↦ rw (e, replace_scheduled) (schedule-Has now d t s)
    | inr (old, e) ↦ elim (Bool-cases (data_eq p.same_version old d)) [
      | inl same ↦ rw (e, replace_scheduled) (rw same (old, e, same))
      | inr other ↦ rw (e, replace_scheduled) (rw other (schedule-Has now d t _))
    ]
  ]

  Has-keeps :
      (later : ℕ) (why : Option String) (d : UpgradeLogData V) (t : ℕ) (s : Upgrader V)
      → Has d s
      → replace_scheduled p later why d t s ≡ s
  unfolding replace_scheduled
  Has-keeps later why d t s (old, e, same) = ground (arith, e, same)

  -- Neither does the log show it as performed, where it did not before.
  replace-open :
      (now : ℕ) (why : Option String) (d : UpgradeLogData V) (t : ℕ) (s : Upgrader V) (id : String)
      → already_performed id s.action_log ≡ false
      → already_performed id (replace_scheduled p now why d t s).action_log ≡ false
  unfolding replace_scheduled schedule_action
  replace-open now why d t s id h = elim (Option-cases s.scheduled_action) [
    | inl e ↦ rw (e, replace_scheduled) (ground arith)
    | inr (old, e) ↦ elim (Bool-cases (data_eq p.same_version old d)) [
      | inl same ↦ rw (e, replace_scheduled) (rw same h)
      | inr other ↦ rw (e, replace_scheduled) (rw other (ground arith))
    ]
  ]

  -- What an operation returns, it returns again.
  abbrev Stays : (Upgrader V → Outcome V) → Outcome V → Type 0
  Stays f (returned t) = f t ≡ returned t
  Stays f _ = Unit

  lift :
      (f g : Upgrader V → Outcome V)
      → ((s : Upgrader V) → f s ≡ g s)
      → (o : Outcome V) → Stays g o
      → Stays f o
  lift f g same (returned t) h = same t ∙ h
  lift f g same key_error h = tt
  lift f g same value_error h = tt

  lift_Stays :
      (f g : ℕ → Upgrader V → Outcome V)
      → ((n : ℕ) (s : Upgrader V) → f n s ≡ g n s)
      → ((n m : ℕ) (s : Upgrader V) → Stays (g m) (g n s))
      → (n m : ℕ) (s : Upgrader V) → Stays (f m) (f n s)
  lift_Stays f g same h n m s =
      subst (Stays (f m)) (sym (same n s)) (lift (f m) (g m) (same m) (g n s) (h n m s))

  cancelled-idle :
      (n : ℕ) (why : Option String) (s : Upgrader V) (d : UpgradeLogData V)
      → s.scheduled_action ≡ some d
      → (cancel_scheduled_upgrade n why s).scheduled_action ≡ none
  unfolding cancel_scheduled_upgrade unschedule_action
  cancelled-idle n why s d e = rw (e, cancel_scheduled_upgrade) refl

  module _ (cfg : Settings) (txn : UpgradeTxn) where
    module _ (pkg : String) (v : V) where
      abbrev new_data : ℕ → UpgradeLogData V
      new_data when = record {
        when = when;
        version = v;
        upgrade_id = get_action_id txn;
        pkg_name = pkg;
      }

      abbrev taken : ℕ → ℕ → Upgrader V → Upgrader V
      taken when now s =
          replace_scheduled p now txn.justification (new_data when)
            (or_else txn.timeout default_action_timeout) s

      start_at-performed :
          (date : String) (now : ℕ) (s : Upgrader V)
          → already_performed (get_action_id txn) s.action_log ≡ true
          → start_at p now txn pkg v date s ≡ returned s
      unfolding start_at
      start_at-performed date now s e = rw (e, start_at) refl

      start_at-taken :
          (date : String) (when now : ℕ) (s : Upgrader V)
          → already_performed (get_action_id txn) s.action_log ≡ false
          → p.parse_date date ≡ some when
          → start_at p now txn pkg v date s ≡ returned (taken when now s)
      unfolding start_at
      start_at-taken date when now s e f = rw (e, start_at) (rw f refl)

      start_at-bad :
          (date : String) (now : ℕ) (s : Upgrader V)
          → already_performed (get_action_id txn) s.action_log ≡ false
          → p.parse_date date ≡ none
          → start_at p now txn pkg v date s ≡ value_error
      unfolding start_at
      start_at-bad date now s e f = rw (e, start_at) (rw f refl)

      start_at-Stays :
          (date : String) (n m : ℕ) (s : Upgrader V)
          → Stays (λ t. start_at p m txn pkg v date t) (start_at p n txn pkg v date s)
      start_at-Stays date n m s =
          elim (Bool-cases (already_performed (get_action_id txn) s.action_log)) [
            | inl e ↦ rw (start_at-performed date n s e) (start_at-performed date m s e)
            | inr e ↦ elim (Option-cases (p.parse_date date)) [
              | inl f ↦ rw (start_at-bad date n s e f) tt
              | inr (when, f) ↦ rw (start_at-taken date when n s e f) (
                  start_at-taken date when m (taken when n s) (replace-open n _ _ _ s _ e) f
                  ∙ ap (λ x. returned x)
                      (Has-keeps m _ _ _ (taken when n s) (replace-Has n _ _ _ s)))
            ]
          ]

      handle_start-Stays :
          (n m : ℕ) (s : Upgrader V)
          → Stays (λ t. handle_start p cfg m txn pkg v t) (handle_start p cfg n txn pkg v s)
      unfolding handle_start
      handle_start-Stays n m s = elim (Option-cases txn.schedule) [
        | inl e ↦
            lift_Stays (λ k t. handle_start p cfg k txn pkg v t) (λ k t. key_error)
              (λ k t. rw (e, handle_start) refl) (λ k j t. tt) n m s
        | inr (sch, e) ↦ elim (Option-cases (get cfg.node_id sch)) [
          | inl f ↦
              lift_Stays (λ k t. handle_start p cfg k txn pkg v t) (λ k t. returned t)
                (λ k t. rw (e, handle_start) (rw f refl)) (λ k j t. refl) n m s
          | inr (date, f) ↦
              lift_Stays (λ k t. handle_start p cfg k txn pkg v t)
                (λ k t. start_at p k txn pkg v date t) (λ k t. ground (arith, e, f))
                (start_at-Stays date) n m s
        ]
      ]

      cancel-idle :
          (n : ℕ) (s : Upgrader V) → s.scheduled_action ≡ none → handle_cancel p n txn v s ≡ s
      unfolding handle_cancel
      cancel-idle n s e = ground (arith, e)

      cancel-other :
          (n : ℕ) (s : Upgrader V) (d : UpgradeLogData V)
          → s.scheduled_action ≡ some d
          → p.same_version d.version v ≡ false
          → handle_cancel p n txn v s ≡ s
      unfolding handle_cancel
      cancel-other n s d e f = ground (arith, e, f)

      cancel-hit :
          (n : ℕ) (s : Upgrader V) (d : UpgradeLogData V)
          → s.scheduled_action ≡ some d
          → p.same_version d.version v ≡ true
          → (handle_cancel p n txn v s).scheduled_action ≡ none
      unfolding handle_cancel
      cancel-hit n s d e f = rw (e, handle_cancel) (rw f (cancelled-idle n _ s d e))

      handle_cancel-Stays :
          (n m : ℕ) (s : Upgrader V)
          → handle_cancel p m txn v (handle_cancel p n txn v s) ≡ handle_cancel p n txn v s
      handle_cancel-Stays n m s = elim (Option-cases s.scheduled_action) [
        | inl e ↦ rw (cancel-idle n s e) (cancel-idle m s e)
        | inr (d, e) ↦ elim (Bool-cases (p.same_version d.version v)) [
          | inl f ↦ cancel-idle m (handle_cancel p n txn v s) (cancel-hit n s d e f)
          | inr f ↦ rw (cancel-other n s d e f) (cancel-other m s d e f)
        ]
      ]

    abbrev handle : ℕ → Upgrader V → Outcome V
    handle now s = handle_upgrade_txn p cfg now txn s

    handle-Stays : (n m : ℕ) (s : Upgrader V) → Stays (handle m) (handle n s)
    unfolding handle_upgrade_txn
    handle-Stays n m s = elim (Bool-cases (txn.txn_type == "109")) [
      | inr e ↦
          lift_Stays handle (λ k t. returned t) (λ k t. rw (e, handle_upgrade_txn) refl)
            (λ k j t. refl) n m s
      | inl e ↦
          elim (Option-cases
            (p.parse_version (or_else txn.pkg_name cfg.upgrade_entry) txn.version)) [
              | inl f ↦
                  lift_Stays handle (λ k t. returned t)
                    (λ k t. rw (e, handle_upgrade_txn) (rw f refl)) (λ k j t. refl) n m s
              | inr (v, f) ↦ elim (Bool-cases (txn.action == "start")) [
                | inl g ↦
                    let pkg = or_else txn.pkg_name cfg.upgrade_entry in
                    lift_Stays handle (λ k t. handle_start p cfg k txn pkg v t)
                      (λ k t. rw (e, handle_upgrade_txn) (rw f (rw g refl)))
                      (handle_start-Stays pkg v) n m s
                | inr g ↦ elim (Bool-cases (txn.action == "cancel")) [
                  | inl h ↦
                      lift_Stays handle (λ k t. returned (handle_cancel p k txn v t))
                        (λ k t. rw (e, handle_upgrade_txn) (rw f (rw g (rw h refl))))
                        (λ k j t. ap (λ x. returned x) (handle_cancel-Stays "" v k j t)) n m s
                  | inr h ↦
                      lift_Stays handle (λ k t. returned t)
                        (λ k t. rw (e, handle_upgrade_txn) (rw f (rw g (rw h refl))))
                        (λ k j t. refl) n m s
                ]
              ]
            ]
    ]

    -- A transaction that is handled again, at whatever time, changes nothing: neither the scheduled
    -- upgrade, nor the log, nor does it make a call.
    pub handle-handle :
        (now later : ℕ) (s t : Upgrader V)
        → handle_upgrade_txn p cfg now txn s ≡ returned t
        → handle_upgrade_txn p cfg later txn t ≡ returned t
    handle-handle now later s t e = subst (Stays (handle later)) e (handle-Stays now later s)

-- ===== src/Upgrade/Tests.antt =====
-- Runs of the upgrader, and the theorems at inputs that meet their hypotheses.
use indy_node.Base.{
  ℕ, zero, suc, String, ◌≡◌, ◌↔◌, ◌≤◌, ◌<◌, ◌+◌, ◌*◌, refl, Bool, true, false, Option, none, some,
  [], ◌∷◌, num_eq, ◌==◌, same_eq, if◌then◌else◌,
}
use indy_node.Base.Decimal.{digits, str_of}
use indy_node.Upgrade.Log.{UpgradeLogData, data_eq}
use indy_node.Upgrade.Ledger.{
  UpgradeTxn, get_action_id, find_down, find_up, get_upgrade_txn, is_start, is_cancel_of,
}
use indy_node.Upgrade.Ledger.Search.{LastBelow, NoneBetween}
use indy_node.Upgrade.Schedule.{
  schedule_valid, insert_time, sorted, check_spacing, parse_times, check_times, is_schedule_valid,
}
use indy_node.Upgrade.Schedule.Validity.{ValidSchedule, is_schedule_valid_iff}
use indy_node.Upgrade.State.{
  Platform, Settings, Upgrader, returned, unschedule_action, schedule_action,
  cancel_scheduled_upgrade, call_upgrade_agent, declare_timeout_exceeded, get_timeout, init, call,
  schedule_timeout, action_failed,
}
use indy_node.Upgrade.Upgrader.{
  send_loop, after_sending, send_request, last_upgrade_succeeded, process_action_log_for_first_run,
  replace_scheduled, start_at, handle_start, handle_cancel, handle_upgrade_txn,
}
use indy_node.Upgrade.Upgrader.Process.{process_ledger, process_ledger_lem}
use indy_node.Upgrade.Upgrader.Consistency.{
  transaction, restarted, after, Reached-ShowsScheduled, ShowsScheduled,
}
use indy_node.Upgrade.Upgrader.Repeats.{handle-handle}
use indy_node.Upgrade.Upgrader.Sending.{send_request_lem, messages, get_timeout_lem}

program : Unit {0}
unfolding data_eq digits str_of get_action_id find_down find_up get_upgrade_txn insert_time sorted
    check_spacing parse_times check_times is_schedule_valid unschedule_action schedule_action
    cancel_scheduled_upgrade call_upgrade_agent declare_timeout_exceeded send_loop after_sending
    send_request last_upgrade_succeeded process_action_log_for_first_run replace_scheduled start_at
    handle_start handle_cancel handle_upgrade_txn get_timeout process_ledger
program = tt

abbrev date_of : String → Option ℕ
date_of date =
    if date == "noon"
    then some 43200000000
    else if date == "five past"
    then some 43500000000
    else none

-- Versions are texts that are compared letter by letter, and a package has none installed.
abbrev platform : Platform String
platform = record {
  parse_version = λ pkg version. some version;
  same_version = λ v w. v == w;
  newer = λ v w. false;
  full = λ v. v;
  parse_date = date_of;
  curr_pkg_info = λ pkg. none;
}

abbrev settings : Settings
settings = record { node_id = "alpha"; upgrade_entry = "indy-node" }

abbrev txn : String → UpgradeTxn
txn action = record {
  txn_type = "109";
  sender = "did";
  req_id = 12;
  seq_no = some 3;
  is_forced = false;
  action = action;
  version = "1.2.3";
  justification = none;
  pkg_name = none;
  schedule = some (("alpha", "noon") ∷ []);
  timeout = none;
}

abbrev noon : UpgradeLogData String
noon = record { when = 43200000000; version = "1.2.3"; upgrade_id = "123"; pkg_name = "indy-node" }

-- The ids of two different transactions.
ids_meet :
    get_action_id (txn "start")
    ≡ get_action_id (record (txn "start") { req_id = 1; seq_no = some 23 })
unfolding program
ids_meet = refl

abbrev waiting : Upgrader String
waiting = schedule_action 5 noon 10 (init [])

started_waits : handle_upgrade_txn platform settings 5 (txn "start") (init []) ≡ returned waiting
unfolding program
started_waits = refl

handle-handle_example :
    handle_upgrade_txn platform settings 7 (txn "start") waiting ≡ returned waiting
handle-handle_example =
    handle-handle platform same_eq settings (txn "start") 5 7 (init []) waiting started_waits

Reached-ShowsScheduled_example : ShowsScheduled waiting
unfolding program
Reached-ShowsScheduled_example =
    Reached-ShowsScheduled platform settings {events = []}
      (after (restarted 0) (transaction 5 (txn "start") started_waits))

get_timeout_lem_example :
    (get_timeout 10 < 86400)
    × (10 < 1440 → get_timeout 10 ≡ 10 * 60)
    × (get_timeout (10 + 1440) ≡ get_timeout 10)
get_timeout_lem_example = get_timeout_lem 10

abbrev second_try : ℕ → Bool
second_try zero = false
second_try (suc n) = true

send_request_lem_example :
    (((i : ℕ) → i < 3 → second_try i ≡ false)
      → send_request platform second_try noon 10 waiting
        ≡ unschedule_action (
            action_failed noon "problems in communication with node control service"
              (messages platform second_try noon 3 waiting)))
    × ((m : ℕ)
        → m < 3
        → ((i : ℕ) → i < m → second_try i ≡ false)
        → second_try m ≡ true
        → send_request platform second_try noon 10 waiting
          ≡ call
              (schedule_timeout noon (get_timeout 10))
              (messages platform second_try noon (suc m) waiting))
send_request_lem_example = send_request_lem platform second_try noon 10 waiting

abbrev ledger : ℕ → UpgradeTxn
ledger n = record (if num_eq n 2 then txn "cancel" else txn "start") { seq_no = some n }

process_ledger_lem_example :
    ((n : ℕ)
      → LastBelow ledger is_start 3 n
      → NoneBetween ledger (is_cancel_of (ledger n)) (suc n) 3
      → process_ledger platform settings 9 ledger 3 waiting
        ≡ handle_upgrade_txn platform settings 9 (ledger n) waiting)
    × ((n m : ℕ)
        → LastBelow ledger is_start 3 n
        → n < m
        → m ≤ 3
        → is_cancel_of (ledger n) (ledger m) ≡ true
        → process_ledger platform settings 9 ledger 3 waiting ≡ returned waiting)
    × (NoneBetween ledger is_start 1 3
        → process_ledger platform settings 9 ledger 3 waiting ≡ returned waiting)
process_ledger_lem_example = process_ledger_lem platform settings 9 ledger 3 (λ n. refl) waiting

is_schedule_valid_iff_example :
    (is_schedule_valid date_of 300 5
        (("alpha", "noon") ∷ ("beta", "five past") ∷ [])
        (("beta", "VALIDATOR" ∷ []) ∷ ("alpha", "VALIDATOR" ∷ []) ∷ [])
        false
      ≡ schedule_valid)
    ↔ ValidSchedule date_of 300 5
        (("alpha", "noon") ∷ ("beta", "five past") ∷ [])
        (("beta", "VALIDATOR" ∷ []) ∷ ("alpha", "VALIDATOR" ∷ []) ∷ [])
        false
is_schedule_valid_iff_example = is_schedule_valid_iff date_of 300 5 _ _ false

five_minutes :
    is_schedule_valid date_of 300 5
      (("alpha", "noon") ∷ ("beta", "five past") ∷ [])
      (("beta", "VALIDATOR" ∷ []) ∷ ("alpha", "VALIDATOR" ∷ []) ∷ [])
      false
    ≡ schedule_valid
unfolding program
five_minutes = refl

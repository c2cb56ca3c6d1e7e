-- ===== src/Tests/Days.antt =====
-- Two runs of one day, on a disk without a schedule.
use zabbig.Prelude.{
  ℕ, ◌≡◌, ◌≢◌, refl, Bool, true, some, [], ◌∷◌, Result, Returns, string_eq, nat_eq, keep,
}
use native.Mathlib.Decide.{ℕ_discrete}
use zabbig.Models.{
  RunSummary, fresh_summary, delivery_eq, is_sendable, status_eq, make_timeout, make_fallback,
  make_error,
}
use zabbig.StateManager.{
  missing, load_schedule_state, load_raw, save_schedule_state, save_state, failures_before,
  run_state, write_run_state, write_schedule,
}
use zabbig.Locking.{absent, acquire, release, is_stale}
use zabbig.Main.Run.{
  run, Inputs, Machine, locked, under_lock, leave_lock, run_chosen, run_scheduled, on_net,
  save_schedule, save, nothing_scheduled, on_disk,
}
use zabbig.Main.Exit.{Ends, run-Ends}
use zabbig.Main.Ledger.{view, recorded}
use zabbig.Main.Ledger.Refines.{Leaves, locked-Leaves}
use zabbig.Main.Ledger.Days.{IsTally, Runs, start, next, Runs-IsTally}
use zabbig.Scheduler.{
  should_execute, window_from, parse_hhmm, window_till, quota, cadence, int_or_raise,
}
use zabbig.Prelude.Dict.{get_or, lookup, insert, has_key}
use zabbig.Main.{
  begin_run, select, run_with_timeout, run_async, deliver, send_separately, send_if, report,
  conclude, count_executions,
}
use zabbig.Runner.{
  run_all_collectors, gather, run_one, prepared, settle, collect_batch, settle_error,
  apply_error_policy, after_window, count_result, count_results, drain, set_duration,
  update_summary, with_proc_root, with_state_dir,
}
use zabbig.Registry.{get_collector, load_collectors_for}
use zabbig.Router.{route}
use zabbig.Sender.{
  send_immediate, answered, chunks, do_send, host_or, item_of, log_rejected, range_from,
  self_results, send_batch, send_chunks, send_results, send_self_metrics, settle_send, try_hosts,
}
use zabbig.Prelude.Text.{int_from, int_of, is_digit, is_digits}
use zabbig.Tests.Data.{sample_config, sample_metrics, sample_net}
use zabbig.Tests.Schedule.{sample_inputs, sample_metrics-UniqueIds}

abbrev new_day : Machine sample_net
new_day = record {
  disk = record { last_run = missing; schedule = missing; dir_ok = true; write_ok = true };
  lock = absent;
  outside = 0;
}

abbrev first_run : Result (RunSummary × ℕ × Bool) × Machine sample_net
first_run = locked sample_net sample_inputs sample_config sample_metrics fresh_summary new_day

-- The second run, an hour later.
abbrev later : Inputs sample_net
later = record sample_inputs { now_minutes = 660 }

abbrev second_run : Result (RunSummary × ℕ × Bool) × Machine sample_net
second_run = locked sample_net later sample_config sample_metrics fresh_summary first_run.1

both_return :
    Returns first_run.0
    × (first_run.1.disk.dir_ok ≡ true)
    × (first_run.1.disk.write_ok ≡ true)
    × Returns second_run.0
unfolding locked leave_lock acquire under_lock select should_execute window_from parse_hhmm
    window_till quota get_or lookup insert begin_run load_schedule_state load_raw run_chosen cadence
    nat_eq ℕ_discrete string_eq run_scheduled on_net save_schedule save save_schedule_state
    save_state run_with_timeout run_async run_all_collectors deliver send_separately send_if report
    release gather keep delivery_eq run_one get_collector prepared has_key settle collect_batch
    settle_error route is_sendable apply_error_policy status_eq make_timeout make_fallback
    send_immediate is_stale nothing_scheduled on_disk conclude count_executions make_error int_from
    int_of is_digit is_digits load_collectors_for after_window count_result count_results drain
    set_duration update_summary with_proc_root with_state_dir int_or_raise answered chunks do_send
    host_or item_of log_rejected range_from self_results send_batch send_chunks send_results
    send_self_metrics settle_send try_hosts failures_before run_state write_run_state write_schedule
both_return = ((_, refl), refl, refl, (_, refl))

day :
    Runs sample_net sample_config sample_metrics "2024-05-01" (660 ∷ 600 ∷ []) new_day second_run.1
day =
    next (600 ∷ []) new_day first_run.1
      (next [] new_day new_day (start new_day) sample_inputs fresh_summary both_return.0.0 refl refl
        refl both_return.0.1)
      later fresh_summary both_return.3.0 refl both_return.1 both_return.2 both_return.3.1

none-ne-today : (view new_day.disk).date ≢ some "2024-05-01"
none-ne-today e = cc

Runs-IsTally_example : IsTally "2024-05-01" sample_metrics (660 ∷ 600 ∷ []) (view second_run.1.disk)
Runs-IsTally_example =
    Runs-IsTally sample_net sample_config sample_metrics "2024-05-01" refl sample_metrics-UniqueIds
      660 (600 ∷ []) new_day second_run.1 none-ne-today day

locked-Leaves_example :
    Leaves sample_net later sample_config sample_metrics refl
      (view first_run.1.disk)
      (recorded "2024-05-01" 660 sample_metrics (view first_run.1.disk))
      second_run.0
      second_run.1
locked-Leaves_example =
    locked-Leaves sample_net later sample_config sample_metrics refl fresh_summary first_run.1
      both_return.1 both_return.2

run-Ends_example : Ends sample_net later.system new_day.lock (run sample_net later new_day)
run-Ends_example = run-Ends sample_net later new_day

-- ===== src/Main.antt =====
-- zabbig_client/src/zabbig_client/main.py: `run` and what it calls. The loaders of the three
-- configuration files, the clock, and the moment of the overall timeout are `Inputs`. What
-- `_write_output` does to the report file is in Main/Output.antt; here it returns or raises. The closing
-- of cached database connections, which never raises, is in Main/Connections.antt.
pub mod Schedule
pub mod Cycle
pub mod Run
pub mod Quota
pub mod Ledger
pub mod Connections
pub mod Validate
pub mod Codes
pub mod Exit
pub mod Output
pub mod Dry
pub mod Reported
pub mod Unsent
use zabbig.Prelude.{
  ℕ, zero, suc, ◌+◌, String, Bool, true, false, not, ◌&&◌, ◌||◌, Option, none, some, List, [], ◌∷◌,
  ◌++◌, map, keep, any, length, ltb, ◌==◌, string_eq, nat_eq, if◌then◌else◌, Result, ok, err, Exc,
  ExcKind, lock_error, file_not_found, db_config_error,
}
use zabbig.Prelude.State.{Action, pure, lift, ◌>>=◌}
use zabbig.Prelude.Dict.{Dict, insert, get_or}
use zabbig.Prelude.Float.{Float}
use zabbig.Models.{ClientConfig, FeaturesConfig, MetricDef, MetricResult, RunSummary, fresh_summary}
use zabbig.Models.Dynamic.{Value, dict, Fields, end}
use zabbig.Registry.{load_collectors_for}
use zabbig.Scheduler.{Decision, execute, skip, should_execute}
use zabbig.Runner.{World, Collector, run_all_collectors, update_summary}
use zabbig.Router.{route}
use zabbig.Sender.{Network, send_batch, send_immediate, send_self_metrics}
use zabbig.StateManager.{Disk, ScheduleState, load_schedule_state, save_schedule_state, save_state}
use zabbig.Locking.{LockFile, System, acquire, release}

abbrev pub is_empty {ℓ} : {A : Type ℓ} → List A → Bool
is_empty [] = true
is_empty (x ∷ xs) = false

-- `[m for m in all_metrics if m.enabled] if skip_disabled_metrics else all_metrics`
unfoldable pub enabled_metrics : FeaturesConfig → List MetricDef → List MetricDef
enabled_metrics features all_metrics =
    if features.skip_disabled_metrics then keep (λ m. m.enabled) all_metrics else all_metrics

-- The params that database metrics get. The connection cache is an empty dict that they share.
unfoldable pub with_databases : Fields → MetricDef → MetricDef
with_databases registry m =
    if m.collector == "database"
    then record m {
      params = insert "_db_conn_cache" (dict end) (insert "_db_registry" (dict registry) m.params);
    }
    else m

-- The schedule of today: a new calendar day resets all counters, and every run is counted.
is_today : Option String → String → Bool
is_today none today = false
is_today (some date) today = date == today

unfoldable pub begin_run : String → ScheduleState → ScheduleState
unfolding is_today
begin_run today state =
    let kept : ScheduleState =
      if is_today state.date today
      then state
      else record { date = some today; run_counter = 0; metrics = [] } in
    record kept { run_counter = kept.run_counter + 1 }

-- The loop that decides which metrics run now: the scheduled metrics, and the number skipped.
pub add_decision : Decision → MetricDef → List MetricDef × ℕ → List MetricDef × ℕ
add_decision execute m (scheduled, skipped) = (m ∷ scheduled, skipped)
add_decision (skip reason) m (scheduled, skipped) = (scheduled, skipped + 1)

unfoldable pub select : ScheduleState → ℕ → Bool → List MetricDef → Result (List MetricDef × ℕ)
unfolding add_decision
select state now dry_run [] = ok ([], 0)
select state now dry_run (m ∷ metrics) =
    let rest = select state now dry_run metrics in
    elim (should_execute m now state.run_counter (get_or m.id state.metrics 0) dry_run) [
      | ok decision ↦ elim rest [ ok r ↦ ok (add_decision decision m r) | err e ↦ err e ]
      | err e ↦ err e
    ]

-- `entry = counts.setdefault(m.id, {"execution_count": 0}); entry["execution_count"] += 1`
unfoldable pub count_executions : List MetricDef → Dict ℕ → Dict ℕ
count_executions [] counts = counts
count_executions (m ∷ scheduled) counts =
    count_executions scheduled (insert m.id (get_or m.id counts 0 + 1) counts)

-- The end of `_run_async`: success and the exit code.
unfoldable pub conclude : Float → RunSummary → RunSummary × ℕ
unfolding nat_eq
conclude duration s = (
  record s {
    duration_ms = duration;
    success = (s.collected_failed == 0) && (s.collected_timeout == 0) && (s.sender_failures == 0);
  },
  (if (ltb 0 s.collected_failed || ltb 0 s.collected_timeout) || ltb 0 s.sender_failures
      then 1
      else 0),
)

-- The clock of one run: `int(time.time())`, and the duration before and after the last send.
pub record Clock : Type 0 where
  pub now : ℕ
  pub before_self : Float
  pub at_end : Float

module _ (net : Network) (config : ClientConfig) where
  -- The sends of `_run_async`: the immediate queue on its own, the batch queue, and the immediate queue
  -- as a batch. The source sends the first two in parallel if both hold something.
  unfoldable pub send_separately : List MetricResult → RunSummary → Action net.State RunSummary
  send_separately immediate summary =
      if config.batching.flush_immediate_separately && not (is_empty immediate)
      then send_immediate net config immediate summary
      else pure summary

  unfoldable pub send_if : Bool → List MetricResult → RunSummary → Action net.State RunSummary
  send_if wanted results summary =
      if wanted && not (is_empty results)
      then send_batch net config results summary
      else pure summary

  unfoldable pub deliver :
      List MetricResult → List MetricResult → RunSummary → Action net.State RunSummary
  deliver batch immediate summary = do
    s1 ← send_separately immediate summary
    s2 ← send_if true batch s1
    send_if (not config.batching.flush_immediate_separately) immediate s2

  -- The self-monitoring metrics, if enabled, and the end of the run.
  unfoldable pub report : Clock → RunSummary → Action net.State (RunSummary × ℕ)
  report clock s =
      if config.features.self_monitoring_metrics
      then (do
        counts ←
            send_self_metrics net config clock.now (record s { duration_ms = clock.before_self })
        pure (conclude clock.at_end s))
      else pure (conclude clock.at_end s)

  -- `_run_async`: the summary and the exit code. `output` is the end of `_write_output`, if it is called.
  unfoldable pub run_async :
      World
      → (List MetricResult → Result (Unit {0}))
      → Clock
      → List MetricDef
      → RunSummary
      → Action net.State (RunSummary × ℕ)
  run_async w output clock metrics summary = do
    raw ← lift (run_all_collectors w config metrics)
    let queues = route (raw.0 ++ raw.1)
    written ← lift (output (raw.0 ++ raw.1))
    sent ← deliver queues.0 queues.1 (update_summary summary raw.0 raw.1)
    report clock sent

  -- `_run_with_timeout`. When the overall timeout cuts the run, the summary and the world outside are
  -- as they happen to be.
  unfoldable pub run_with_timeout :
      Option (RunSummary × net.State)
      → World
      → (List MetricResult → Result (Unit {0}))
      → Clock
      → List MetricDef
      → RunSummary
      → Action net.State (RunSummary × ℕ)
  run_with_timeout none w output clock metrics summary s =
      run_async w output clock metrics summary s
  run_with_timeout (some (cut, s')) w output clock metrics summary s =
      (ok (record cut { success = false }, 2), s')

  -- `_send_fatal_failure`, which swallows every exception.
  unfoldable pub send_fatal_failure : ℕ → Action net.State (Unit {0})
  send_fatal_failure now s =
      if config.features.self_monitoring_metrics && not config.runtime.dry_run
      then (
        ok tt,
        (send_self_metrics net config now (record fresh_summary { success = false }) s).1,
      )
      else (ok tt, s)

-- ===== src/Main/Run.antt =====
-- main.py, `run`: one invocation, from the loaded configuration to the exit code. `ok code` is the
-- exit code, and `err` an exception that escapes from `run`.
use zabbig.Prelude.{
  ℕ, ◌+◌, String, Bool, true, false, Option, none, some, List, map, any, length, ◌==◌, string_eq,
  if◌then◌else◌, Result, ok, err, ExcKind, lock_error, file_not_found, db_config_error,
}
use zabbig.Prelude.State.{Action, pure, lift, and_then, ◌>>=◌}
use zabbig.Prelude.Dict.{Dict}
use zabbig.Prelude.Float.{Float}
use zabbig.Models.{ClientConfig, MetricDef, MetricResult, RunSummary, fresh_summary}
use zabbig.Models.Dynamic.{Fields, end}
use zabbig.Registry.{load_collectors_for}
use zabbig.Runner.{World, Collector}
use zabbig.Sender.{Network}
use zabbig.StateManager.{Disk, ScheduleState, load_schedule_state, save_schedule_state, save_state}
use zabbig.Locking.{LockFile, System, acquire, release}
use zabbig.Main.{
  is_empty, enabled_metrics, with_databases, begin_run, select, count_executions, Clock,
  run_with_timeout, send_fatal_failure,
}

-- The outcome of `os.path.isfile(databases_config_path)` and of the loader, if a path was given.
pub data Databases : Type 0 where
  no_path not_a_file : Databases
  loaded : (Bool → Result Fields) → Databases

-- What one invocation is given.
pub record Inputs (net : Network) : Type 0 where
  pub client_config : Result ClientConfig
  pub metrics_config : Bool → Result (List MetricDef)
  pub databases : Databases
  pub dry_run : Bool
  pub log_level_override : Option String
  pub system : System
  pub today : String
  pub now_minutes : ℕ
  pub registered : Dict Collector
  pub class_of : String → Collector
  pub world : Dict Collector → World
  -- The end of `_write_output`, or nothing without an output path
  pub output : List MetricResult → Result (Unit {0})
  pub clock : Clock
  pub cut : Option (RunSummary × net.State)
  -- `round(summary.duration_ms, 1)`, and `str.upper`
  pub rounded : Float → Float
  pub upper : String → String

-- What outlives an invocation.
pub record Machine (net : Network) : Type 0 where
  pub disk : Disk
  pub lock : LockFile
  pub outside : net.State

-- `if log_level_override: client_config.logging.level = log_level_override.upper()`
override : (String → String) → Option String → String → String
override upper none level = level
override upper (some l) level = if l == "" then level else upper l

-- The flags of the command line override the configuration.
unfoldable pub with_flags : Bool → Option String → (String → String) → ClientConfig → ClientConfig
unfolding override
with_flags dry_run level upper config =
    let runtime = config.runtime in
    let logging = config.logging in
    record config {
      runtime = record runtime { dry_run = if dry_run then true else runtime.dry_run };
      logging = record logging { level = override upper level config.logging.level };
    }

-- An exception of the kinds that `except (DatabaseConfigError, FileNotFoundError)` catches.
is_config_problem : ExcKind → Bool
is_config_problem db_config_error = true
is_config_problem file_not_found = true
is_config_problem _ = false

-- `db_registry`; `none` for the fatal failure.
unfoldable pub load_registry : Bool → Bool → Databases → Result (Option Fields)
unfolding is_config_problem
load_registry needed strict (loaded load) =
    if needed
    then (elim (load strict) [
      | ok registry ↦ ok (some registry)
      | err e ↦ if is_config_problem e.kind then ok none else err e
    ])
    else ok (some end)
load_registry needed strict _ = ok (some end)

unfoldable pub inject : Fields → List MetricDef → List MetricDef
inject end metrics = metrics
inject registry metrics = map (with_databases registry) metrics

module _ (net : Network) (inputs : Inputs net) where
  unfoldable pub on_disk : {A : Type 0} → Action Disk A → Action (Machine net) A
  on_disk action m = let (r, disk) = action m.disk in (r, record m { disk = disk })

  unfoldable pub on_net : {A : Type 0} → Action net.State A → Action (Machine net) A
  on_net action m = let (r, outside) = action m.outside in (r, record m { outside = outside })

  -- `save_state(client_config, summary)`
  unfoldable pub save : ClientConfig → RunSummary → Action (Machine net) (Unit {0})
  unfolding on_disk
  save config summary =
      on_disk (save_state config inputs.clock.now (inputs.rounded summary.duration_ms) summary)

  unfoldable pub save_schedule : ClientConfig → ScheduleState → Action (Machine net) (Unit {0})
  unfolding on_disk
  save_schedule config state =
      if config.runtime.dry_run then pure tt else on_disk (save_schedule_state state)

  -- The run of the scheduled metrics under the lock: the summary and the exit code.
  unfoldable pub run_scheduled :
      ClientConfig
      → ScheduleState
      → List MetricDef
      → RunSummary
      → Action (Machine net) (RunSummary × ℕ)
  unfolding on_net save_schedule
  run_scheduled config state scheduled summary = do
    let registry =
        load_collectors_for inputs.class_of (map (λ m. m.collector) scheduled) inputs.registered
    result ← on_net (
        run_with_timeout net config inputs.cut (inputs.world registry) inputs.output inputs.clock
          scheduled summary)
    saved ←
        save_schedule config (record state { metrics = count_executions scheduled state.metrics })
    pure result

  -- The early return of a run on which no metric is scheduled.
  unfoldable pub nothing_scheduled :
      ClientConfig → ScheduleState → RunSummary → Action (Machine net) (RunSummary × ℕ × Bool)
  unfolding save save_schedule
  nothing_scheduled config state summary = do
    written ← save_schedule config state
    saved ← save config summary
    pure (summary, 0, true)

  -- What follows once the metrics are chosen: the early return, or the run.
  unfoldable pub run_chosen :
      ClientConfig
      → ScheduleState
      → RunSummary
      → List MetricDef × ℕ
      → Action (Machine net) (RunSummary × ℕ × Bool)
  run_chosen config state summary chosen =
      let summary' : RunSummary = record summary {
        schedule_skipped = summary.schedule_skipped + chosen.1;
      } in
      if is_empty chosen.0 then nothing_scheduled config state summary' else (do
        result ← run_scheduled config state chosen.0 summary'
        pure (result.0, result.1, false))

  -- The block under `with RunLock(…)`: the summary, the exit code, and whether `run` returns from
  -- within the block.
  unfoldable pub under_lock :
      ClientConfig → List MetricDef → RunSummary → Action (Machine net) (RunSummary × ℕ × Bool)
  under_lock config metrics summary m =
      (do
        stored ← lift (load_schedule_state m.disk)
        let state = begin_run inputs.today stored
        chosen ← lift (select state inputs.now_minutes config.runtime.dry_run metrics)
        run_chosen config state summary chosen)
        m

  -- `__exit__`: the lock is released on every way out. An exception of `release` takes the place of the
  -- block's result or exception.
  unfoldable pub leave_lock : {A : Type 0} → Result A × Machine net → Result A × Machine net
  leave_lock (result, after) =
      let (released, lock) = release inputs.system after.lock in
      (and_then released (λ _ m. (result, m)) (record after { lock = lock }))

  -- `with RunLock(…)`
  unfoldable pub locked :
      ClientConfig → List MetricDef → RunSummary → Action (Machine net) (RunSummary × ℕ × Bool)
  locked config metrics summary m =
      let (entered, lock) = acquire 2 inputs.system m.lock in
      let left = leave_lock (under_lock config metrics summary (record m { lock = lock })) in
      elim entered [ ok _ ↦ left | err e ↦ (err e, record m { lock = lock }) ]

  unfoldable pub after_lock : ClientConfig → Result (RunSummary × ℕ × Bool) → Action (Machine net) ℕ
  unfolding save
  after_lock config (ok (summary, code, true)) m = (ok code, m)
  after_lock config (ok (summary, code, false)) m = (do saved ← save config summary; pure code) m
  after_lock config (err e) m = elim e.kind [ lock_error ↦ (ok 2, m) | _ ↦ (err e, m) ]

  unfoldable pub fatal : ClientConfig → Action (Machine net) ℕ
  unfolding on_net
  fatal config = do sent ← on_net (send_fatal_failure net config inputs.clock.now); pure 2

  unfoldable pub run_metrics :
      ClientConfig → List MetricDef → List MetricDef → Action (Machine net) ℕ
  run_metrics config all_metrics metrics m =
      let summary : RunSummary = record fresh_summary {
        total_configured = length all_metrics;
        enabled = length metrics;
      } in
      let (result, after) = locked config metrics summary m in
      if is_empty metrics then (ok 0, m) else after_lock config result after

  unfoldable pub run_enabled : ClientConfig → List MetricDef → Action (Machine net) ℕ
  unfolding fatal
  run_enabled config all_metrics = do
    let metrics = enabled_metrics config.features all_metrics
    let needed = any (λ m. m.collector == "database") metrics
    registry ← lift (load_registry needed config.features.strict_config_validation inputs.databases)
    elim registry [
      | none ↦ fatal config
      | some fields ↦ run_metrics config all_metrics (inject fields metrics)
    ]

  -- `run`
  unfoldable pub run : Action (Machine net) ℕ
  unfolding fatal
  run m = elim inputs.client_config [
    | err e ↦ (ok 2, m)
    | ok loaded_config ↦
        let config =
          with_flags inputs.dry_run inputs.log_level_override inputs.upper loaded_config in
        elim (inputs.metrics_config config.features.strict_config_validation) [
          | err e ↦ fatal config m
          | ok all_metrics ↦ run_enabled config all_metrics m
        ]
  ]

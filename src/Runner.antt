-- ===== src/Runner.antt =====
-- zabbig_client/src/zabbig_client/runner.py: collectors are run, their failures become results, and
-- the results are counted. asyncio, the clock and the collectors' classes are the `World`: what
-- `asyncio.wait_for(collector.collect(metric), …)` gives for a metric, how long it took, and how the
-- batch window ended. The semaphore only delays tasks and is not modelled.
pub mod Policy
pub mod Tasks
pub mod Summary
pub mod Window
use zabbig.Prelude.{
  ℕ, suc, ◌+◌, String, Bool, true, false, not, ◌&&◌, ◌||◌, Option, none, some, List, [], ◌∷◌, ◌++◌,
  map, keep, ◌==◌, string_eq, if◌then◌else◌, Result, ok, err, raise, Exc, ExcKind, timeout_error,
  cancelled_error, ◌>>=◌,
}
use zabbig.Prelude.Dict.{Dict, has_key, insert}
use zabbig.Prelude.Float.{Float, zero_float}
use zabbig.Models.{
  ClientConfig, MetricDef, MetricResult, RunSummary, Delivery, delivery_eq, Status, status_eq,
  ErrorPolicy, make_timeout, make_error, make_fallback,
}
use zabbig.Models.Dynamic.{Value, str}
use zabbig.Registry.{get_collector}

-- What a collector returns: a single result, or a list of them.
pub data Collected : Type 0 where
  one : MetricResult → Collected
  many : List MetricResult → Collected

-- A collector class is its `collect`, cut off by `asyncio.wait_for`, which raises a TimeoutError.
abbrev pub Collector : Type 0
Collector = MetricDef → Result Collected

-- The state of a batch task when the batch window has expired.
pub data Progress : Type 0 where
  finished cancelled pending : Progress

pub data BatchWindow : Type 0 where
  in_time : BatchWindow
  expired : (MetricDef → Progress) → BatchWindow

pub record World : Type 0 where
  pub registry : Dict Collector
  -- `(time.monotonic() - t0) * 1000` for the task of a metric.
  pub elapsed : MetricDef → Float
  -- `int(time.time())` when its result is built.
  pub now : MetricDef → ℕ
  pub window : BatchWindow
  -- `window * 1000`
  pub window_ms : Float

-- The policy of a failed or timed-out result.
by_policy : ℕ → MetricResult → MetricDef → ErrorPolicy → Option String → MetricResult
by_policy now raw_result metric ErrorPolicy.skip fallback_value = record raw_result {
  status = Status.skipped;
  value = none;
}
by_policy now raw_result metric ErrorPolicy.fallback (some v) =
    make_fallback now metric raw_result.duration_ms
by_policy now raw_result metric ErrorPolicy.fallback none = record raw_result {
  status = Status.skipped;
  value = none;
}
by_policy now raw_result metric ErrorPolicy.mark_failed fallback_value = raw_result

-- `_apply_error_policy`
unfoldable pub apply_error_policy : ℕ → MetricResult → MetricDef → MetricResult
unfolding by_policy
apply_error_policy now raw_result metric =
    if raw_result.status == Status.failed || raw_result.status == Status.timeout
    then by_policy now raw_result metric metric.error_policy metric.fallback_value
    else raw_result

unfoldable pub set_duration : Float → MetricResult → MetricResult
set_duration duration r = record r { duration_ms = duration }

-- The handlers of the `try` of `run_one`, for an exception of a kind. A CancelledError is no
-- Exception and passes through.
unfoldable pub settle_error : ℕ → MetricDef → Float → Exc → ExcKind → Result (List MetricResult)
settle_error now metric duration e timeout_error =
    ok (apply_error_policy now (make_timeout now metric duration) metric ∷ [])
settle_error now metric duration e cancelled_error = err e
settle_error now metric duration e _ =
    ok (apply_error_policy now (make_error now metric e.message duration) metric ∷ [])

-- The `try` of `run_one`.
unfoldable pub settle : ℕ → MetricDef → Float → Result Collected → Result (List MetricResult)
unfolding set_duration
settle now metric duration (ok (one r)) = ok (set_duration duration r ∷ [])
settle now metric duration (ok (many rs)) = ok (map (set_duration duration) rs)
settle now metric duration (err e) = settle_error now metric duration e e.kind

-- The settings that `run_one` adds to a metric's params.
unfoldable pub with_proc_root : String → MetricDef → MetricDef
with_proc_root proc_root metric =
    if has_key "proc_root" metric.params
    then metric
    else record metric { params = insert "proc_root" (str proc_root) metric.params }

unfoldable pub with_state_dir : String → MetricDef → MetricDef
with_state_dir state_dir metric =
    if (metric.collector == "log") && not (has_key "state_dir" metric.params)
    then record metric { params = insert "state_dir" (str state_dir) metric.params }
    else metric

abbrev pub immediate_metrics : List MetricDef → List MetricDef
immediate_metrics = keep (λ m. m.delivery == Delivery.immediate)

abbrev pub batch_metrics : List MetricDef → List MetricDef
batch_metrics = keep (λ m. m.delivery == Delivery.batch)

module _ (w : World) (config : ClientConfig) where
  unfoldable pub prepared : MetricDef → MetricDef
  unfolding with_proc_root with_state_dir
  prepared metric =
      with_state_dir config.state.directory (with_proc_root config.runtime.proc_root metric)

  unfoldable pub run_one : MetricDef → Result (List MetricResult)
  run_one metric = do
    collect ← get_collector (prepared metric).collector w.registry
    settle (w.now metric) (prepared metric) (w.elapsed metric) (collect (prepared metric))

  -- `asyncio.gather(…, return_exceptions=False)` of the tasks, and the loop that joins the groups.
  unfoldable pub gather : List MetricDef → Result (List MetricResult)
  gather [] = ok []
  gather (m ∷ ms) = do group ← run_one m; rest ← gather ms; ok (group ++ rest)

  -- `task.result()` of a finished task, under `except Exception`.
  finished_task : MetricDef → Result (List MetricResult) → Result (List MetricResult)
  finished_task metric (ok rs) = ok rs
  finished_task metric (err e) = elim e.kind [
    | cancelled_error ↦ err e
    | _ ↦
        let raw = make_error (w.now metric) metric e.message zero_float in
        ok (apply_error_policy (w.now metric) raw metric ∷ [])
  ]

  -- One step of the loop after the window. `result()` of a cancelled task raises CancelledError.
  unfoldable pub after_window : MetricDef → Progress → Result (List MetricResult)
  unfolding finished_task
  after_window metric finished = finished_task metric (run_one metric)
  after_window metric cancelled = raise cancelled_error ""
  after_window metric pending =
      let raw = make_timeout (w.now metric) metric w.window_ms in
      ok (apply_error_policy (w.now metric) raw metric ∷ [])

  unfoldable pub drain : (MetricDef → Progress) → List MetricDef → Result (List MetricResult)
  drain progress [] = ok []
  drain progress (m ∷ ms) = do
    group ← after_window m (progress m)
    rest ← drain progress ms
    ok (group ++ rest)

  unfoldable pub collect_batch : BatchWindow → List MetricDef → Result (List MetricResult)
  collect_batch in_time metrics = gather metrics
  collect_batch (expired progress) metrics = drain progress metrics

  -- (immediate_results, batch_results)
  unfoldable pub run_all_collectors :
      List MetricDef → Result (List MetricResult × List MetricResult)
  run_all_collectors metrics = do
    immediate_results ← gather (immediate_metrics metrics)
    batch_results ← collect_batch w.window (batch_metrics metrics)
    ok (immediate_results, batch_results)

-- One round of the loop of `update_summary`.
unfoldable pub count_result : RunSummary → Status → RunSummary
count_result s Status.failed = record s { collected_failed = s.collected_failed + 1 }
count_result s Status.timeout = record s { collected_timeout = s.collected_timeout + 1 }
count_result s Status.skipped = record s { skipped = s.skipped + 1 }
count_result s _ = record s { collected_ok = s.collected_ok + 1 }

unfoldable pub count_results : RunSummary → List MetricResult → RunSummary
count_results s [] = s
count_results s (r ∷ results) = count_results (count_result s r.status) results

unfoldable pub update_summary : RunSummary → List MetricResult → List MetricResult → RunSummary
update_summary s immediate_results batch_results =
    count_results s (immediate_results ++ batch_results)

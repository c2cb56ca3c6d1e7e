-- ===== src/Tests/Reports.antt =====
-- The end of a cycle on concrete metrics: the cached connections and the report.
use zabbig.Prelude.{
  ℕ, ◌≡◌, ◌≤◌, ◌↔◌, All, String, List, [], ◌∷◌, ◌++◌, UniqueBy, contains, nat_eq, Option, some,
  none, if◌then◌else◌, refl, ok, err, true, false, type_error, arith,
}
use zabbig.Models.{MetricDef, MetricResult, RunSummary, Delivery, fresh_summary}
use zabbig.Main.Connections.{Store, close_db_conn_caches}
use zabbig.Main.Connections.Closed.{refs, firsts, connections, close_db_conn_caches-once}
use zabbig.Main.{deliver, run_async}
use zabbig.Router.{route}
use zabbig.Runner.{in_time, run_all_collectors, update_summary}
use zabbig.Main.Reported.{Reports, run_async-success}
use zabbig.Runner.Tasks.{run_all_collectors-Each}
use zabbig.Tests.Runs.{cpu_metric-IsServed, disk_metric-IsServed}
use zabbig.Main.Output.Escapes.{json_output, run_async-json_output}
use zabbig.Main.Output.{Report, is_os_error, len, widths_of, row_start, columns}
use zabbig.Main.Output.Aligned.{last_column, row_start-columns}
use zabbig.Tests.Data.{
  metric, sample_net, sample_net-IsHonest, sample_config, sample_metrics, sample_results,
  sample_clock, world,
}

-- Three metrics, two of them on databases, which share a cache with two connections.
abbrev metrics : List MetricDef
metrics =
    metric "rows" "database" Delivery.batch none none
    ∷ metric "cpu.util" "cpu" Delivery.batch none none
    ∷ metric "size" "database" Delivery.batch none none
    ∷ []

abbrev cache_of : MetricDef → Option ℕ
cache_of m = some 3

abbrev store : Store String
store = record { cached = λ i. ("orders", "first") ∷ ("users", "second") ∷ []; closed = [] }

close_db_conn_caches-once_example :
    (let after = close_db_conn_caches cache_of metrics store in
      let caches = refs cache_of metrics in
      ((j : ℕ) → after.cached j ≡ (if contains caches j then [] else store.cached j))
      × (after.closed ≡ store.closed ++ connections store.cached (firsts [] caches))
      × UniqueBy (λ k. k) (firsts [] caches)
      × ((j : ℕ) → contains (firsts [] caches) j ≡ contains caches j))
close_db_conn_caches-once_example = close_db_conn_caches-once cache_of metrics store

-- A report whose rows cannot all be written as JSON.
abbrev report : Report
report = record {
  open_file = ok tt;
  stored = λ text. record { text = text; raised = none };
  json_dump = λ rows. record {
    text = "[";
    raised = some (record { kind = type_error; message = "not JSON serializable" });
  };
  csv_rows = λ rows. record { text = ""; raised = none };
}

collected :
    (rs : List MetricResult × List MetricResult) × (run_all_collectors
        (world in_time)
        sample_config
        sample_metrics
      ≡ ok rs)
collected =
    let (rs, e, _, _, _) =
      run_all_collectors-Each (world in_time) sample_config sample_metrics
        (cpu_metric-IsServed, (disk_metric-IsServed, tt)) refl in
    (rs, e)

run_async-json_output_example :
    (is_os_error type_error ≡ true
      → run_async sample_net sample_config
          (world in_time)
          (json_output report none)
          sample_clock
          sample_metrics
          fresh_summary
          0
        ≡ run_async sample_net sample_config
            (world in_time)
            (λ results. ok tt)
            sample_clock
            sample_metrics
            fresh_summary
            0)
    × (is_os_error type_error ≡ false
        → run_async sample_net sample_config
            (world in_time)
            (json_output report none)
            sample_clock
            sample_metrics
            fresh_summary
            0
          ≡ (err (record { kind = type_error; message = "not JSON serializable" }), 0))
run_async-json_output_example =
    run_async-json_output sample_net sample_config (world in_time) report none sample_clock
      sample_metrics fresh_summary 0 collected.0
      (record { kind = type_error; message = "not JSON serializable" }) collected.1 refl refl

run_async-success_example :
    (let raw = collected.0 in
      let queues = route (raw.0 ++ raw.1) in
      let delivery =
        deliver sample_net sample_config queues.0 queues.1
          (update_summary fresh_summary raw.0 raw.1)
          0 in
      (sent : RunSummary) × (delivery.0 ≡ ok sent)
      × Reports sample_net sample_config refl sample_clock sent delivery.1 (
          run_async sample_net sample_config
            (world in_time)
            (λ results. ok tt)
            sample_clock
            sample_metrics
            fresh_summary
            0))
run_async-success_example =
    run_async-success sample_net sample_config refl (world in_time) (λ results. ok tt) sample_clock
      sample_metrics fresh_summary 0 2 collected.0 sample_net-IsHonest refl (omega arith) refl
      collected.1 refl

row_start-columns_example :
    (let w = widths_of sample_results in
      All (λ r. len (row_start w r) ≡ last_column w) sample_results
      × ((len (columns w "key" "value" "status") ≡ last_column w)
          ↔ ((3 ≤ w.col_key) × (5 ≤ w.col_val) × (6 ≤ w.col_sta))))
row_start-columns_example = row_start-columns sample_results

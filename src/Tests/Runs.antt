-- ===== src/Tests/Runs.antt =====
-- Collection and routing, on concrete metrics.
use zabbig.Prelude.{
  ◌+◌, ◌≡◌, ◌↔◌, inl, refl, String, true, none, some, List, keep, length, ok, string_eq,
}
use zabbig.Prelude.Dict.{lookup}
use zabbig.Models.{MetricResult, Delivery, delivery_eq, Status, ErrorPolicy, is_sendable}
use zabbig.Router.{route}
use zabbig.Router.Split.{goes_batch, goes_immediate, route_lem}
use zabbig.Runner.{
  run_all_collectors, immediate_metrics, batch_metrics, in_time, apply_error_policy,
}
use zabbig.Runner.Policy.{apply_error_policy_iff}
use zabbig.Runner.Tasks.{Each, IsServed, run_all_collectors-Each}
use zabbig.Tests.Data.{
  sample_config, sample_metrics, cpu_metric, disk_metric, sample_results, result, world,
}

pub cpu_metric-IsServed : IsServed (world in_time) sample_config cpu_metric
unfolding lookup string_eq
cpu_metric-IsServed = (_, refl, tt)

pub disk_metric-IsServed : IsServed (world in_time) sample_config disk_metric
unfolding lookup string_eq
disk_metric-IsServed = (_, refl, λ e. cc)

run_all_collectors-Each_example :
    (rs : List MetricResult × List MetricResult) × (run_all_collectors
        (world in_time)
        sample_config
        sample_metrics
      ≡ ok rs)
    × Each (world in_time) sample_config (immediate_metrics sample_metrics) rs.0
    × Each (world in_time) sample_config (batch_metrics sample_metrics) rs.1
    × (length rs.0 + length rs.1 ≡ length sample_metrics)
run_all_collectors-Each_example =
    run_all_collectors-Each (world in_time) sample_config sample_metrics
      (cpu_metric-IsServed, (disk_metric-IsServed, tt)) refl

apply_error_policy_iff_example :
    (is_sendable (apply_error_policy 7 (result Delivery.batch Status.failed none) cpu_metric)
      ≡ true)
    ↔ ((ErrorPolicy.fallback ≡ ErrorPolicy.fallback)
        × ((v : String) × (some "0" ≡ some v)
            × ((apply_error_policy 7 (result Delivery.batch Status.failed none) cpu_metric).value
                ≡ some v)))
apply_error_policy_iff_example =
    apply_error_policy_iff 7 (result Delivery.batch Status.failed none) cpu_metric (inl refl, refl)

route_lem_example :
    ((route sample_results).0 ≡ keep goes_batch sample_results)
    × ((route sample_results).1 ≡ keep goes_immediate sample_results)
    × (length (route sample_results).0 + length (route sample_results).1
        ≡ length (keep is_sendable sample_results))
route_lem_example = route_lem sample_results

-- ===== src/Tests/Data.antt =====
-- Concrete configurations, metrics, servers and collectors.
use zabbig.Prelude.{
  ℕ, ◌+◌, ◌≡◌, String, Bool, true, false, Option, none, some, List, [], ◌∷◌, length, ◌==◌,
  string_eq, if◌then◌else◌, ok, raise, os_error, timeout_error, arith,
}
use zabbig.Prelude.Dict.{Dict}
use zabbig.Prelude.Float.{pos, ℤ, finite, zero_float}
use zabbig.Models.{
  ClientConfig, MetricDef, MetricResult, Delivery, Status, ErrorPolicy, Frequency, every,
}
use zabbig.Runner.{World, Collector, one, BatchWindow}
use zabbig.Sender.{Network, Response}
use zabbig.Sender.Delivery.{IsHonest}
use zabbig.Main.{Clock}

abbrev pub config_with : List String → Bool → ℤ → ClientConfig
config_with hosts dry size = record {
  zabbix = record {
    server_hosts = hosts;
    server_port = pos 10051;
    host_name = "web1";
    host_group = "";
    connect_timeout_seconds = finite (pos 10);
    send_timeout_seconds = finite (pos 30);
  };
  runtime = record {
    overall_timeout_seconds = finite (pos 240);
    max_concurrency = pos 8;
    lock_file = "/tmp/zabbig.lock";
    dry_run = dry;
    fail_fast = false;
    proc_root = "/proc";
  };
  batching = record {
    batch_collection_window_seconds = finite (pos 60);
    batch_send_max_size = size;
    batch_chunk_size = pos 50;
    flush_immediate_separately = true;
    immediate_micro_batch_window_ms = pos 200;
  };
  logging = record { level = "INFO"; format = "text"; file = none; console = true };
  state = record { enabled = true; directory = "state" };
  features = record {
    self_monitoring_metrics = true;
    emit_partial_failure_metrics = true;
    strict_config_validation = true;
    skip_disabled_metrics = true;
  };
}

-- Two servers, the first of them down, and chunks of two.
abbrev pub sample_config : ClientConfig
sample_config = config_with ("down" ∷ "up" ∷ []) false (pos 2)

abbrev pub dry_config : ClientConfig
dry_config = config_with ("down" ∷ "up" ∷ []) true (pos 2)

abbrev pub metric : String → String → Delivery → Option ℤ → Option Frequency → MetricDef
metric id collector delivery quota frequency = record {
  id = id;
  name = id;
  enabled = true;
  collector = collector;
  key = id;
  delivery = delivery;
  timeout_seconds = finite (pos 10);
  error_policy = ErrorPolicy.fallback;
  description = "";
  value_type = "float";
  unit = "";
  importance = "normal";
  fallback_value = some "0";
  tags = [];
  params = [];
  host_name = none;
  time_window_from = some "0800";
  time_window_till = none;
  max_executions_per_day = quota;
  run_frequency = frequency;
}

abbrev pub cpu_metric : MetricDef
cpu_metric = metric "cpu.util" "cpu" Delivery.immediate none (some (every (pos 3)))

abbrev pub disk_metric : MetricDef
disk_metric = metric "disk.used" "disk" Delivery.batch (some (pos 2)) none

abbrev pub sample_metrics : List MetricDef
sample_metrics = cpu_metric ∷ disk_metric ∷ []

abbrev pub result : Delivery → Status → Option String → MetricResult
result delivery status value = record {
  metric_id = "m";
  key = "m.key";
  value = value;
  value_type = "float";
  timestamp = 7;
  collector = "cpu";
  delivery = delivery;
  status = status;
  unit = "";
  tags = [];
  error = none;
  source = "";
  duration_ms = zero_float;
  host_name = none;
}

abbrev pub sample_results : List MetricResult
sample_results =
    result Delivery.batch Status.ok (some "1")
    ∷ result Delivery.immediate Status.failed none
    ∷ result Delivery.immediate Status.fallback (some "2")
    ∷ []

-- The server "up" accepts everything, and every other one refuses the connection. The state counts
-- the attempts.
abbrev pub sample_net : Network
sample_net = record {
  State = ℕ;
  send = λ host port items n. (
    if host == "up"
        then ok
            (record { processed = length items; failed = 0; total = length items; details = [] })
        else raise os_error "connection refused",
    n + 1,
  );
  outlasts = λ items n. false;
  show = λ n. "";
  show_ms = λ d. "";
}

accepted :
    (b : Bool) (n : ℕ) (r : Response)
    → (if b
        then ok (record { processed = n; failed = 0; total = n; details = [] })
        else raise os_error "connection refused")
      ≡ ok r
    → r.processed + r.failed ≡ n
accepted true n r p = ground arith
accepted false n r p = cc

pub sample_net-IsHonest : IsHonest sample_net
sample_net-IsHonest host port items s r e = accepted (host == "up") (length items) r e

abbrev pub sample_registry : Dict Collector
sample_registry =
    ("cpu", λ m. ok (one (result Delivery.immediate Status.ok (some "5"))))
    ∷ ("disk", λ m. raise timeout_error "")
    ∷ []

abbrev pub world : BatchWindow → World
world window = record {
  registry = sample_registry;
  elapsed = λ m. zero_float;
  now = λ m. 7;
  window = window;
  window_ms = zero_float;
}

abbrev pub sample_clock : Clock
sample_clock = record { now = 7; before_self = zero_float; at_end = zero_float }

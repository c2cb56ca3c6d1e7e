-- ===== src/Models.antt =====
-- zabbig_client/src/zabbig_client/models.py: the configuration records, a metric definition, a
-- result and the summary of a run. The string constants of the file that the loader checks
-- (delivery, error policy, result status) are data types. `int(time.time())` and durations are
-- arguments, since the clock is not part of the program. Python values that come out of YAML or
-- that a collector handles stand in Models/Dynamic.antt.
pub mod Dynamic
use zabbig.Prelude.{ℕ, zero, String, Bool, true, false, Option, none, some, List, [], ◌∷◌, Eq}
use zabbig.Prelude.Dict.{Dict}
use zabbig.Prelude.Float.{ℤ, pos, Float}
use Dynamic.{Value, str}

-- DELIVERY_BATCH, DELIVERY_IMMEDIATE
pub data Delivery : Type 0 where
  batch immediate : Delivery

-- ERROR_POLICY_*
pub data ErrorPolicy : Type 0 where
  skip fallback mark_failed : ErrorPolicy

-- RESULT_*
pub data Status : Type 0 where
  ok failed timeout skipped fallback : Status

pub record ZabbixConfig : Type 0 where
  pub server_hosts : List String
  pub server_port : ℤ
  pub host_name : String
  pub host_group : String
  pub connect_timeout_seconds : Float
  pub send_timeout_seconds : Float

pub record RuntimeConfig : Type 0 where
  pub overall_timeout_seconds : Float
  pub max_concurrency : ℤ
  pub lock_file : String
  pub dry_run : Bool
  pub fail_fast : Bool
  pub proc_root : String

pub record BatchingConfig : Type 0 where
  pub batch_collection_window_seconds : Float
  pub batch_send_max_size : ℤ
  pub batch_chunk_size : ℤ
  pub flush_immediate_separately : Bool
  pub immediate_micro_batch_window_ms : ℤ

pub record LogFileConfig : Type 0 where
  pub path : String
  pub max_size_mb : ℤ
  pub max_backups : ℤ
  pub compress : Bool

pub record LoggingConfig : Type 0 where
  pub level : String
  pub format : String
  pub file : Option LogFileConfig
  pub console : Bool

pub record StateConfig : Type 0 where
  pub enabled : Bool
  pub directory : String

pub record FeaturesConfig : Type 0 where
  pub self_monitoring_metrics : Bool
  pub emit_partial_failure_metrics : Bool
  pub strict_config_validation : Bool
  pub skip_disabled_metrics : Bool

pub record ClientConfig : Type 0 where
  pub zabbix : ZabbixConfig
  pub runtime : RuntimeConfig
  pub batching : BatchingConfig
  pub logging : LoggingConfig
  pub state : StateConfig
  pub features : FeaturesConfig

-- `Optional[Union[int, str]]` without the `None`.
pub data Frequency : Type 0 where
  every : ℤ → Frequency
  word : String → Frequency

-- A metric, whose id and key are of a type: values of YAML as the loader returns them, and texts in the
-- rest of the program.
pub record MetricDefOf (Name : Type 0) : Type 0 where
  pub id : Name
  pub name : String
  pub enabled : Bool
  pub collector : String
  pub key : Name
  pub delivery : Delivery
  pub timeout_seconds : Float
  pub error_policy : ErrorPolicy
  pub description : String
  pub value_type : String
  pub unit : String
  pub importance : String
  pub fallback_value : Option String
  pub tags : List Value
  pub params : Dict Value
  pub host_name : Option String
  pub time_window_from : Option String
  pub time_window_till : Option String
  pub max_executions_per_day : Option ℤ
  pub run_frequency : Option Frequency

abbrev pub MetricDef : Type 0
MetricDef = MetricDefOf String

abbrev pub LoadedMetric : Type 0
LoadedMetric = MetricDefOf Value

-- A metric whose id and key are texts, as the loader returns it.
abbrev pub with_texts : MetricDef → LoadedMetric
with_texts m = record {
  id = str m.id;
  name = m.name;
  enabled = m.enabled;
  collector = m.collector;
  key = str m.key;
  delivery = m.delivery;
  timeout_seconds = m.timeout_seconds;
  error_policy = m.error_policy;
  description = m.description;
  value_type = m.value_type;
  unit = m.unit;
  importance = m.importance;
  fallback_value = m.fallback_value;
  tags = m.tags;
  params = m.params;
  host_name = m.host_name;
  time_window_from = m.time_window_from;
  time_window_till = m.time_window_till;
  max_executions_per_day = m.max_executions_per_day;
  run_frequency = m.run_frequency;
}

pub record MetricResult : Type 0 where
  pub metric_id : String
  pub key : String
  pub value : Option String
  pub value_type : String
  pub timestamp : ℕ
  pub collector : String
  pub delivery : Delivery
  pub status : Status
  pub unit : String
  pub tags : List Value
  pub error : Option String
  pub source : String
  pub duration_ms : Float
  pub host_name : Option String

-- `is_sendable`: a value that should be sent to Zabbix.
sendable : Status → Option String → Bool
sendable Status.ok (some v) = true
sendable Status.fallback (some v) = true
sendable _ _ = false

unfoldable pub is_sendable : MetricResult → Bool
unfolding sendable
is_sendable r = sendable r.status r.value

-- `make_timeout`, at the time `now`.
unfoldable pub make_timeout : ℕ → MetricDef → Float → MetricResult
make_timeout now metric duration_ms = record {
  metric_id = metric.id;
  key = metric.key;
  value = none;
  value_type = metric.value_type;
  timestamp = now;
  collector = metric.collector;
  delivery = metric.delivery;
  status = Status.timeout;
  unit = metric.unit;
  tags = metric.tags;
  error = some "Collector timed out";
  source = "";
  duration_ms = duration_ms;
  host_name = metric.host_name;
}

-- `make_error`, with `str(exc)`.
unfoldable pub make_error : ℕ → MetricDef → String → Float → MetricResult
make_error now metric exc duration_ms = record {
  metric_id = metric.id;
  key = metric.key;
  value = none;
  value_type = metric.value_type;
  timestamp = now;
  collector = metric.collector;
  delivery = metric.delivery;
  status = Status.failed;
  unit = metric.unit;
  tags = metric.tags;
  error = some exc;
  source = "";
  duration_ms = duration_ms;
  host_name = metric.host_name;
}

unfoldable pub make_fallback : ℕ → MetricDef → Float → MetricResult
make_fallback now metric duration_ms = record {
  metric_id = metric.id;
  key = metric.key;
  value = metric.fallback_value;
  value_type = metric.value_type;
  timestamp = now;
  collector = metric.collector;
  delivery = metric.delivery;
  status = Status.fallback;
  unit = metric.unit;
  tags = metric.tags;
  error = none;
  source = "";
  duration_ms = duration_ms;
  host_name = metric.host_name;
}

pub record RunSummary : Type 0 where
  pub total_configured : ℕ
  pub enabled : ℕ
  pub collected_ok : ℕ
  pub collected_failed : ℕ
  pub collected_timeout : ℕ
  pub skipped : ℕ
  pub sent_batch : ℕ
  pub sent_immediate : ℕ
  pub sender_failures : ℕ
  pub schedule_skipped : ℕ
  pub duration_ms : Float
  pub success : Bool

-- `RunSummary()`
abbrev pub fresh_summary : RunSummary
fresh_summary = record {
  total_configured = 0;
  enabled = 0;
  collected_ok = 0;
  collected_failed = 0;
  collected_timeout = 0;
  skipped = 0;
  sent_batch = 0;
  sent_immediate = 0;
  sender_failures = 0;
  schedule_skipped = 0;
  duration_ms = Float.finite (pos 0);
  success = true;
}

Status-discrete : Discrete Status
Status-discrete = hlevel

instance unfoldable pub status_eq : Eq Status
unfolding Status-discrete
status_eq = record { dec = Status-discrete }

Delivery-discrete : Discrete Delivery
Delivery-discrete = hlevel

instance unfoldable pub delivery_eq : Eq Delivery
unfolding Delivery-discrete
delivery_eq = record { dec = Delivery-discrete }

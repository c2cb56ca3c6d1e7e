-- ===== src/Host.antt =====
-- zabbig_client/src/zabbig_client/collectors/{cpu,memory,disk,service}.py: the values of the host
-- itself, a module for each collector. Here is what they share: their parameters and their result.
pub mod Cpu
pub mod Memory
pub mod Volume
pub mod Service
use zabbig.Prelude.{
  ℕ, zero, suc, ◌-◌, String, Bool, true, false, none, some, ltb, ◌==◌, string_eq, if◌then◌else◌,
}
use zabbig.Prelude.Dict.{get_or}
use zabbig.Prelude.Float.{ℤ, pos, negsuc, Float}
use zabbig.Models.{MetricDef, MetricResult, Status}
use zabbig.Models.Dynamic.{Value, str}

-- `metric.params.get(name, default)` with a text as the default
unfoldable pub host_param : String → String → MetricDef → Value
host_param name default metric = get_or name metric.params (str default)

-- `v == s` for a text
unfoldable pub is_text : Value → String → Bool
is_text (str t) s = t == s
is_text v s = false

-- `a - b` of two natural numbers, which may be negative
abbrev pub diff : ℕ → ℕ → ℤ
diff a b = if ltb a b then negsuc (b - a - 1) else pos (a - b)

-- The `MetricResult` that ends `collect`: a text as the value, under the name of the collector.
unfoldable pub host_result : String → MetricDef → ℕ → Float → String → String → MetricResult
host_result collector metric now duration source value = record {
  metric_id = metric.id;
  key = metric.key;
  value = some value;
  value_type = metric.value_type;
  timestamp = now;
  collector = collector;
  delivery = metric.delivery;
  status = Status.ok;
  unit = metric.unit;
  tags = metric.tags;
  error = none;
  source = source;
  duration_ms = duration;
  host_name = metric.host_name;
}

-- ===== src/Tests/Configs.antt =====
-- The loaders on small files.
use zabbig.Prelude.{
  ◌==◌, if◌then◌else◌, ◌≡◌, refl, String, true, none, some, List, [], ◌∷◌, keep, string_eq, nat_eq,
  All, any, map, Result, ok, raise, type_error, value_error, arith,
}
use zabbig.Prelude.Dict.{Dict, lookup, get_or}
use zabbig.Prelude.Float.{ℤ, pos, Float, float_of, lt_float, eq_float}
use zabbig.Models.{MetricDef, LoadedMetric, with_texts, batch, immediate, skip}
use zabbig.Models.Dynamic.{
  Value, null, int, float, str, list, nil, cons, dict, Fields, end, field, find, get, has, items,
  merged, entries_of, one_of, in_set, same_value, truthy, Casts,
}
use native.Mathlib.Decide.{ℕ_discrete}
use zabbig.Config.{
  report_error, report_if, rejected, hhmm_text, checked_hhmm, in_range, zfill, nonneg,
  parse_hhmm_field, parse_int_nonneg_field, parse_run_frequency_field,
}
use zabbig.Config.Metric.{
  delivery_of, error_policy_of, get_default, checked_name, optional_text, required, parse_enabled,
  default_timeout, positive_timeout, parse_timeout, default_delivery, parse_delivery,
  parse_error_policy, parse_value_type, parse_importance, parse_settings, parse_schedule,
  parse_body, known_collector, if_some, parse_metric,
}
use zabbig.Config.Params.{check_one_of, require, validate_collector_params}
use zabbig.Prelude.Text.{is_digit, is_digits, int_from, int_of}
use zabbig.Scheduler.{int_or_raise}
use zabbig.StateManager.{missing, holds, load_schedule_state, load_raw}
use zabbig.Main.{enabled_metrics}
use zabbig.Main.Run.{Inputs, Machine, run}
use zabbig.Main.Quota.{Quotas}
use zabbig.Main.Quota.Loaded.{run-Quotas}
use zabbig.Tests.Data.{sample_config, sample_net}
use zabbig.Tests.Schedule.{sample_inputs, sample_machine}
use zabbig.Config.Yaml.{ConfigFiles, read_mapping, read_yaml, fields_of}
use zabbig.Config.Load.{
  MetricsConfig, is_one, include_metric, include_unless, include_new, include_raw,
  load_included_metrics, load_matched, resolved, load_pattern, add_metric, add_parsed, add_all,
  parse_collector_defaults, load_patterns, include_patterns, load_metrics, load_metrics_config,
}
use zabbig.Config.Metric.WellFormed.{IsWellFormed}
use zabbig.Config.Load.Unique.{
  Distinct, load_metrics_config-Distinct, load_metrics_config-IsWellFormed,
}

abbrev pub to_text : Value → String
to_text (str s) = s
to_text v = "1"

abbrev pub to_number : Value → Result ℤ
to_number (int i) = ok i
to_number null = raise type_error "int() argument must be a number"
to_number v = raise value_error "invalid literal for int()"

abbrev pub to_real : Value → Result Float
to_real (float x) = ok x
to_real v = raise value_error "could not convert to float"

abbrev pub to_items : Value → Result (List Value)
to_items (list vs) = ok (items vs)
to_items v = raise type_error "not iterable"

abbrev pub to_entries : Value → Result (Dict Value)
to_entries (dict d) = ok (entries_of d)
to_entries v = raise type_error "not a mapping"

abbrev pub casts : Casts
casts = record {
  to_str = to_text;
  to_int = to_number;
  to_float = to_real;
  to_list = to_items;
  to_dict = to_entries;
  upper = λ s. s;
  lower = λ s. s;
}

abbrev cpu_entry : Fields
cpu_entry = field "id" (str "cpu.util") (
    field "collector" (str "cpu") (
      field "key" (str "host.cpu.util") (
        field "time_window_from" (str "0800") (
          field "max_executions_per_day" (int (pos 2))
            (field "params" (dict (field "mode" (str "percent") end)) end)))))

abbrev memory_entry : Fields
memory_entry = field "id" (str "mem.used") (
    field "collector" (str "memory") (
      field "key" (str "host.mem.used") (
        field "delivery" (str "immediate")
          (field "params" (dict (field "mode" (str "used_percent") end)) end))))

abbrev main_file : Fields
main_file =
    field "metrics" (list (cons (dict cpu_entry) nil))
      (field "include" (list (cons (str "more.yaml") nil)) end)

abbrev included_file : Fields
included_file = field "metrics" (list (cons (dict memory_entry) nil)) end

abbrev files : ConfigFiles
files = record {
  is_file = λ path. true;
  safe_load = λ path. ok (dict (if path == "more.yaml" then included_file else main_file));
  glob = λ pattern. pattern ∷ [];
  sorted = λ paths. paths;
  base_dir = λ path. path;
  isabs = λ path. true;
  join = λ base path. path;
}

abbrev loaded_cpu : MetricDef
loaded_cpu = record {
  id = "cpu.util";
  name = "cpu.util";
  enabled = true;
  collector = "cpu";
  key = "host.cpu.util";
  delivery = batch;
  timeout_seconds = float_of 10;
  error_policy = skip;
  description = "";
  value_type = "float";
  unit = "";
  importance = "normal";
  fallback_value = none;
  tags = [];
  params = ("mode", str "percent") ∷ [];
  host_name = none;
  time_window_from = some "0800";
  time_window_till = none;
  max_executions_per_day = some (pos 2);
  run_frequency = none;
}

abbrev loaded_memory : MetricDef
loaded_memory = record loaded_cpu {
  id = "mem.used";
  name = "mem.used";
  collector = "memory";
  key = "host.mem.used";
  delivery = immediate;
  params = ("mode", str "used_percent") ∷ [];
  time_window_from = none;
  max_executions_per_day = none;
}

abbrev loaded_metrics : List MetricDef
loaded_metrics = loaded_cpu ∷ loaded_memory ∷ []

abbrev loaded_config : MetricsConfig
loaded_config = record {
  version = pos 1;
  defaults = end;
  collector_defaults = end;
  metrics = map with_texts loaded_metrics;
  include = str "more.yaml" ∷ [];
}

loads : load_metrics_config casts true files "metrics.yaml" ≡ ok loaded_config
unfolding load_metrics_config load_metrics include_patterns load_patterns parse_collector_defaults
    add_all add_parsed add_metric is_one read_mapping read_yaml fields_of delivery_of
    error_policy_of get_default checked_name optional_text required parse_enabled default_timeout
    positive_timeout parse_timeout default_delivery parse_delivery parse_error_policy
    parse_value_type parse_importance parse_settings parse_schedule parse_body known_collector
    if_some parse_metric check_one_of require validate_collector_params report_error report_if
    rejected parse_hhmm_field parse_int_nonneg_field parse_run_frequency_field find get has items
    merged entries_of one_of truthy lookup float_of lt_float eq_float string_eq nat_eq ℕ_discrete
    get_or include_metric include_unless include_new in_set same_value any include_raw
    load_included_metrics load_matched resolved load_pattern hhmm_text checked_hhmm in_range zfill
    nonneg is_digits is_digit int_from int_of int_or_raise
loads = refl

load_metrics_config-Distinct_example :
    Distinct (λ (m : LoadedMetric). m.id) loaded_config.metrics
    × Distinct (λ (m : LoadedMetric). m.key) loaded_config.metrics
load_metrics_config-Distinct_example =
    load_metrics_config-Distinct casts files "metrics.yaml" loaded_config loads

load_metrics_config-IsWellFormed_example : All IsWellFormed loaded_config.metrics
load_metrics_config-IsWellFormed_example =
    load_metrics_config-IsWellFormed casts true files "metrics.yaml" loaded_config loads

abbrev loading_inputs : Inputs sample_net
loading_inputs = record sample_inputs { metrics_config = λ strict. ok loaded_metrics }

-- Today the metric has already run twice, which is its quota.
abbrev used_up : Machine sample_net
used_up = record sample_machine {
  disk = record {
    last_run = missing;
    schedule =
        holds
          (record { date = some "2024-05-01"; run_counter = 3; metrics = ("cpu.util", 2) ∷ [] });
    dir_ok = true;
    write_ok = true;
  };
}

used_up-Quotas : Quotas (enabled_metrics sample_config.features loaded_metrics) used_up.disk
unfolding get_or lookup load_schedule_state load_raw string_eq enabled_metrics keep
used_up-Quotas = (omega arith, (tt, tt))

run-Quotas_example :
    Quotas
      (enabled_metrics sample_config.features loaded_metrics)
      (run sample_net loading_inputs used_up).1.disk
run-Quotas_example =
    run-Quotas sample_net loading_inputs casts files "metrics.yaml" sample_config loaded_config
      loaded_metrics refl refl loads refl refl used_up used_up-Quotas

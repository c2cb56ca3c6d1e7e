-- ===== src/Config/Metric.antt =====
-- config_loader.py, `_parse_metric`: one metric entry, with the defaults of the file and of its
-- collector. An id or a key stays the value that YAML has read.
pub mod WellFormed
use zabbig.Prelude.{
  ℕ, String, Bool, true, false, not, Option, none, some, List, [], ◌∷◌, ◌==◌, string_eq, contains,
  if◌then◌else◌, Result, ok, err, raise, ExcKind, attribute_error, ◌>>=◌,
}
use zabbig.Prelude.Dict.{Dict, lookup}
use zabbig.Prelude.Float.{ℤ, Float, float_of}
use zabbig.Models.{LoadedMetric, Delivery, ErrorPolicy, Frequency}
use zabbig.Models.Dynamic.{
  Value, null, bool, float, str, list, nil, dict, end, Fields, find, get, truthy, one_of, Casts,
}
use zabbig.Config.{
  report_error, report_if, rejected, not_positive, parse_hhmm_field, parse_int_nonneg_field,
  parse_run_frequency_field,
}
use zabbig.Config.Params.{validate_collector_params}

-- `CollectorDefaults`
pub record CollectorDefaults : Type 0 where
  pub timeout_seconds : Float
  pub delivery : String

abbrev pub valid_collectors : List String
valid_collectors =
    "cpu" ∷ "memory" ∷ "disk" ∷ "service" ∷ "network" ∷ "log" ∷ "probe" ∷ "database" ∷ []

-- The optional settings of an entry.
pub record Settings : Type 0 where
  pub enabled : Bool
  pub timeout_seconds : Float
  pub delivery : String
  pub error_policy : String
  pub value_type : String
  pub importance : String

pub record Schedule : Type 0 where
  pub time_window_from : Option String
  pub time_window_till : Option String
  pub max_executions_per_day : Option ℤ
  pub run_frequency : Option Frequency

-- The two constants of each kind, for a text that has been checked.
unfoldable pub delivery_of : String → Delivery
delivery_of s = if s == "immediate" then Delivery.immediate else Delivery.batch

unfoldable pub error_policy_of : String → ErrorPolicy
error_policy_of s =
    if s == "fallback"
    then ErrorPolicy.fallback
    else if s == "mark_failed"
    then ErrorPolicy.mark_failed
    else ErrorPolicy.skip

-- `raw.get(key)`, then `defaults.get(key)`, then the fallback.
unfoldable pub get_default : Fields → Fields → String → Value → Value
get_default raw defaults key fallback = get key raw (get key defaults fallback)

-- A text that has to be one of some names, or else is replaced by a default.
unfoldable pub checked_name : Bool → List String → String → String → String → Result String
checked_name strict names default message s =
    if contains names s then ok s else (do warned ← report_error strict message; ok default)

-- `str(v)` of a field, if it is not None.
unfoldable pub optional_text : (Value → String) → Option Value → Option String
optional_text to_str none = none
optional_text to_str (some null) = none
optional_text to_str (some v) = some (to_str v)

module _ (c : Casts) (strict : Bool) where
  -- A required field: `none` if it is missing or empty.
  unfoldable pub required : Fields → String → Result (Option Value)
  required raw key =
      if truthy (get key raw null)
      then ok (some (get key raw null))
      else rejected strict "missing required field"

  unfoldable pub parse_enabled : Value → Result Bool
  parse_enabled (bool b) = ok b
  parse_enabled v = do warned ← report_error strict "'enabled' must be a boolean"; ok (truthy v)

  -- metric, then collector default, then global default
  unfoldable pub default_timeout : Fields → Option CollectorDefaults → Result Float
  default_timeout defaults (some cd) = ok cd.timeout_seconds
  default_timeout defaults none = c.to_float (get "timeout_seconds" defaults (float (float_of 10)))

  unfoldable pub positive_timeout : Float → Result Float
  positive_timeout timeout =
      if not_positive timeout
      then (do warned ← report_error strict "timeout_seconds must be > 0"; ok (float_of 10))
      else ok timeout

  unfoldable pub parse_timeout : Fields → Fields → Option CollectorDefaults → Result Float
  parse_timeout raw defaults cd = do
    default ← default_timeout defaults cd
    timeout ← c.to_float (get "timeout_seconds" raw (float default))
    positive_timeout timeout

  -- `(cd.delivery if cd else None) or defaults.get("delivery", "batch")`
  unfoldable pub default_delivery : Fields → Option CollectorDefaults → Value
  default_delivery defaults none = get "delivery" defaults (str "batch")
  default_delivery defaults (some cd) =
      if cd.delivery == "" then get "delivery" defaults (str "batch") else str cd.delivery

  unfoldable pub parse_delivery : Fields → Fields → Option CollectorDefaults → Result String
  parse_delivery raw defaults cd =
      checked_name strict ("batch" ∷ "immediate" ∷ []) "batch" "invalid delivery"
        (c.to_str (get "delivery" raw (default_delivery defaults cd)))

  unfoldable pub parse_error_policy : Fields → Fields → Result String
  parse_error_policy raw defaults =
      checked_name strict ("skip" ∷ "fallback" ∷ "mark_failed" ∷ []) "skip" "invalid error_policy"
        (c.to_str (get_default raw defaults "error_policy" (str "skip")))

  unfoldable pub parse_value_type : Fields → Fields → Result String
  parse_value_type raw defaults =
      checked_name strict ("int" ∷ "float" ∷ "string" ∷ "text" ∷ []) "float" "invalid value_type"
        (c.to_str (get_default raw defaults "value_type" (str "float")))

  unfoldable pub parse_importance : Fields → Fields → Result String
  parse_importance raw defaults =
      checked_name strict ("low" ∷ "normal" ∷ "high" ∷ "critical" ∷ []) "normal"
        "invalid importance" (c.to_str (get_default raw defaults "importance" (str "normal")))

  unfoldable pub parse_settings : Fields → Fields → Option CollectorDefaults → Result Settings
  parse_settings raw defaults cd = do
    enabled ← parse_enabled (get_default raw defaults "enabled" (bool true))
    timeout ← parse_timeout raw defaults cd
    delivery ← parse_delivery raw defaults cd
    error_policy ← parse_error_policy raw defaults
    value_type ← parse_value_type raw defaults
    importance ← parse_importance raw defaults
    ok (record {
      enabled = enabled;
      timeout_seconds = timeout;
      delivery = delivery;
      error_policy = error_policy;
      value_type = value_type;
      importance = importance;
    })

  unfoldable pub parse_schedule : Fields → Result Schedule
  parse_schedule raw = do
    from ← parse_hhmm_field c.to_str strict (find "time_window_from" raw)
    till ← parse_hhmm_field c.to_str strict (find "time_window_till" raw)
    quota ← parse_int_nonneg_field c.to_int strict (find "max_executions_per_day" raw)
    frequency ← parse_run_frequency_field c.to_int strict (find "run_frequency" raw)
    ok (record {
      time_window_from = from;
      time_window_till = till;
      max_executions_per_day = quota;
      run_frequency = frequency;
    })

  -- The rest of an entry whose id, collector and key are there.
  unfoldable pub parse_body :
      Fields → Fields → Option CollectorDefaults → Value → String → Value → Result LoadedMetric
  parse_body raw defaults cd metric_id collector key = do
    settings ← parse_settings raw defaults cd
    schedule ← parse_schedule raw
    tags ← c.to_list (get_default raw defaults "tags" (list nil))
    params ← c.to_dict (get "params" raw (dict end))
    checked ← validate_collector_params c strict collector params
    ok (record {
      id = metric_id;
      name = c.to_str (get "name" raw metric_id);
      enabled = settings.enabled;
      collector = collector;
      key = key;
      delivery = delivery_of settings.delivery;
      timeout_seconds = settings.timeout_seconds;
      error_policy = error_policy_of settings.error_policy;
      description = c.to_str (get "description" raw (str ""));
      value_type = settings.value_type;
      unit = c.to_str (get "unit" raw (str ""));
      importance = settings.importance;
      fallback_value = optional_text c.to_str (find "fallback_value" raw);
      tags = tags;
      params = params;
      host_name = optional_text c.to_str (find "host_name" raw);
      time_window_from = schedule.time_window_from;
      time_window_till = schedule.time_window_till;
      max_executions_per_day = schedule.max_executions_per_day;
      run_frequency = schedule.run_frequency;
    })

  -- The collector, if it is one of the known names.
  unfoldable pub known_collector : Value → Result (Option String)
  known_collector (str name) =
      if contains valid_collectors name then ok (some name) else rejected strict "unknown collector"
  known_collector v = do known ← one_of valid_collectors v; rejected strict "unknown collector"

  -- The chain of early returns: what is missing makes the whole metric None.
  unfoldable pub if_some : {A B : Type 0} → Option A → (A → Result (Option B)) → Result (Option B)
  if_some none next = ok none
  if_some (some a) next = next a

  abbrev pub as_some : {A : Type 0} → Result A → Result (Option A)
  as_some r = do a ← r; ok (some a)

  -- `_parse_metric`
  unfoldable pub parse_metric :
      Dict CollectorDefaults → Fields → Fields → Result (Option LoadedMetric)
  unfolding if_some
  parse_metric collector_defaults defaults raw = do
    metric_id ← required raw "id"
    if_some metric_id (λ metric_id. do
      collector ← required raw "collector"
      if_some collector (λ collector. do
        name ← known_collector collector
        if_some name (λ name. do
          key ← required raw "key"
          if_some key (λ key.
              as_some
                (parse_body raw defaults (lookup name collector_defaults) metric_id name key)))))

-- ===== src/Config/Params.antt =====
-- config_loader.py, `_validate_collector_params`: the params that each collector wants.
use zabbig.Prelude.{
  String, Bool, false, not, ◌&&◌, List, [], ◌∷◌, ◌==◌, string_eq, if◌then◌else◌, Result, ok, err,
  Exc, ExcKind, value_error, type_error, ◌>>=◌,
}
use zabbig.Prelude.Dict.{Dict, has_key, get_or}
use zabbig.Prelude.Float.{ℤ, pos, negsuc}
use zabbig.Models.Dynamic.{
  Value, null, int, str, list, dict, nil, Fields, has, get, items, truthy, one_of, Casts,
}
use zabbig.Config.{report_error, report_if}

abbrev pub cpu_modes : List String
cpu_modes = "percent" ∷ "load1" ∷ "load5" ∷ "load15" ∷ "uptime" ∷ []

abbrev pub memory_modes : List String
memory_modes = "used_percent" ∷ "available_bytes" ∷ "swap_used_percent" ∷ []

abbrev pub disk_modes : List String
disk_modes =
    "used_percent" ∷ "used_bytes" ∷ "free_bytes" ∷ "inodes_used_percent" ∷ "inodes_used"
    ∷ "inodes_free" ∷ "inodes_total" ∷ []

abbrev pub sockstat_modes : List String
sockstat_modes = "tcp_inuse" ∷ "tcp_timewait" ∷ "tcp_orphans" ∷ "udp_inuse" ∷ []

abbrev pub network_modes : List String
network_modes =
    "rx_bytes_per_sec" ∷ "tx_bytes_per_sec" ∷ "rx_bytes" ∷ "tx_bytes" ∷ "rx_packets" ∷ "tx_packets"
    ∷ "rx_errors" ∷ "tx_errors" ∷ "rx_dropped" ∷ "tx_dropped" ∷ sockstat_modes

abbrev pub result_strategies : List String
result_strategies = "first" ∷ "last" ∷ "max" ∷ "min" ∷ []

abbrev pub comparators : List String
comparators = "gt" ∷ "lt" ∷ "gte" ∷ "lte" ∷ "eq" ∷ []

module _ (c : Casts) (strict : Bool) where
  -- `if value not in names: _config_error(message, strict)`
  unfoldable pub check_one_of : List String → Value → String → Result (Unit {0})
  check_one_of names value message = do
    known ← one_of names value
    report_if strict (not known) message

  -- `if key not in params: _config_error(message, strict)`
  unfoldable pub require : String → Dict Value → String → Result (Unit {0})
  require key params message = report_if strict (not (has_key key params)) message

  unfoldable pub check_disk : Dict Value → Result (Unit {0})
  check_disk params = do
    mount ← require "mount" params "disk collector requires params.mount"
    check_one_of disk_modes (get_or "mode" params (str "used_percent")) "disk collector params.mode"

  -- `value == name`
  abbrev pub equals : Value → String → Bool
  equals (str s) name = s == name
  equals v name = false

  unfoldable pub check_service : Dict Value → Result (Unit {0})
  check_service params = do
    let check_mode = get_or "check_mode" params (str "systemd")
    known ←
        check_one_of ("systemd" ∷ "process" ∷ []) check_mode "service collector params.check_mode"
    service ←
        report_if strict (equals check_mode "systemd" && not (has_key "service_name" params))
          "check_mode=systemd requires params.service_name"
    report_if strict (equals check_mode "process" && not (has_key "process_pattern" params))
        "check_mode=process requires params.process_pattern"

  unfoldable pub check_network : Dict Value → Result (Unit {0})
  check_network params = do
    let mode = get_or "mode" params null
    known ←
        (if truthy mode
          then check_one_of network_modes mode "network collector params.mode"
          else report_error strict "network collector requires params.mode")
    sockstat ← one_of sockstat_modes mode
    report_if strict (not sockstat && not (has_key "interface" params)) "requires params.interface"

  -- The checks of a condition with `extract`.
  unfoldable pub check_extract : Fields → Result (Unit {0})
  check_extract cond = do
    compare ← report_if strict (not (has "compare" cond)) "'extract' requires 'compare'"
    threshold ← report_if strict (not (has "threshold" cond)) "'extract' requires 'threshold'"
    check_one_of comparators (get "compare" cond (str "")) "compare not valid"

  unfoldable pub check_condition : Value → Result (Unit {0})
  check_condition (dict cond) = do
    both ←
        report_if strict (has "when" cond && has "extract" cond)
          "cannot have both 'when' and 'extract'"
    if has "extract" cond then check_extract cond else ok tt
  check_condition v = report_error strict "must be a mapping"

  unfoldable pub check_conditions : List Value → Result (Unit {0})
  check_conditions [] = ok tt
  check_conditions (v ∷ conditions) = do first ← check_condition v; check_conditions conditions

  -- The conditions of a log or a database metric.
  unfoldable pub check_condition_list : Value → Result (Unit {0})
  check_condition_list (list vs) = check_conditions (items vs)
  check_condition_list v = report_error strict "params.conditions must be a list"

  unfoldable pub check_log : Dict Value → Result (Unit {0})
  check_log params = do
    path ← require "path" params "log collector requires params.path"
    match ← require "match" params "log collector requires params.match"
    mode ←
        check_one_of ("condition" ∷ "count" ∷ []) (get_or "mode" params (str "condition"))
          "log collector params.mode"
    result ←
        check_one_of result_strategies (get_or "result" params (str "last"))
          "log collector params.result"
    check_condition_list (get_or "conditions" params (list nil))

  -- `col = int(result_column)`, with the exceptions that the source catches.
  uncaught_column : ExcKind → Exc → Result (Unit {0})
  uncaught_column type_error e = report_error strict "result_column must be a non-negative integer"
  uncaught_column value_error e = report_error strict "result_column must be a non-negative integer"
  uncaught_column kind e = err e

  unfoldable pub check_column : Result ℤ → Result (Unit {0})
  unfolding uncaught_column
  check_column (ok (pos n)) = ok tt
  check_column (ok (negsuc n)) = report_error strict "result_column must be a non-negative integer"
  check_column (err e) = uncaught_column e.kind e

  unfoldable pub check_database : Dict Value → Result (Unit {0})
  check_database params = do
    let mode = get_or "mode" params (str "value")
    database ← require "database" params "database collector requires params.database"
    sql ← require "sql" params "database collector requires params.sql"
    known ← check_one_of ("value" ∷ "condition" ∷ []) mode "database collector params.mode"
    result ←
        check_one_of result_strategies (get_or "result" params (str "last"))
          "database collector params.result"
    column ← check_column (c.to_int (get_or "result_column" params (int (pos 0))))
    if equals mode "condition"
        then check_condition_list (get_or "conditions" params (list nil))
        else ok tt

  -- `_validate_collector_params`
  unfoldable pub validate_collector_params : String → Dict Value → Result (Unit {0})
  validate_collector_params collector params =
      if collector == "cpu"
      then check_one_of cpu_modes (get_or "mode" params (str "percent")) "cpu collector params.mode"
      else if collector == "memory"
      then check_one_of memory_modes (get_or "mode" params (str "used_percent"))
          "memory collector params.mode"
      else if collector == "disk"
      then check_disk params
      else if collector == "service"
      then check_service params
      else if collector == "network"
      then check_network params
      else if collector == "log"
      then check_log params
      else if collector == "database"
      then check_database params
      else ok tt

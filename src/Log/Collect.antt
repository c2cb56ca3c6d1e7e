-- ===== src/Log/Collect.antt =====
-- log.py: the state file with the offset, and `collect`.
use zabbig.Prelude.{
  ℕ, String, ◌<>◌, Option, none, some, ◌==◌, string_eq, if◌then◌else◌, Result, ok, err, raise,
  value_error, type_error,
}
use zabbig.Prelude.State.{Action, pure, lift, ◌>>=◌}
use zabbig.Prelude.Dict.{Dict, insert, get_or}
use zabbig.Prelude.Float.{Float, pos}
use zabbig.Models.{MetricDef, MetricResult, Status}
use zabbig.Models.Dynamic.{Value, int, str, Builtins}
use zabbig.Log.{Entry}
use zabbig.Log.Scan.{OffsetState}
use zabbig.Log.Source.{Files, scanned, value_of, count_metric}

-- The files of the state directory by their path; a missing or corrupt file is none.
abbrev pub States : Type 0
States = Dict OffsetState

module _ (fs : Files) where
  open fs use {join, writable}

  -- `_state_file`
  unfoldable pub state_file : String → String → String
  state_file state_dir metric_id = join state_dir (("log_" <> metric_id) <> ".json")

  -- `_load_state`
  abbrev pub no_state : OffsetState
  no_state = record { inode = none; offset = 0 }

  -- `_save_state`, whose exceptions are passed on.
  unfoldable pub save_offset : String → OffsetState → Action States (Unit {0})
  save_offset path state states = elim (writable path) [
    | ok _ ↦ (ok tt, insert path state states)
    | err e ↦ (err e, states)
  ]

  -- The value is reduced after the state has been saved.
  abbrev and_value : Result (Unit {0}) → Result Entry → Result Entry
  and_value (ok _) value = value
  and_value (err e) value = err e

  -- `_log_condition`, with the state directory of the metric.
  unfoldable pub log_condition : Builtins → String → MetricDef → Action States Entry
  log_condition b state_dir metric states =
      let path = state_file state_dir metric.id in
      elim (scanned fs b metric (get_or path states no_state)) [
        | err e ↦ (err e, states)
        | ok (entries, state) ↦
            let (saved, after) = save_offset path state states in
            (and_value saved (value_of fs b metric.params entries), after)
      ]

-- `str(params.get("state_dir", "state"))`; os.path.join raises a TypeError for anything but text.
state_dir_of : Value → Result String
state_dir_of (str s) = ok s
state_dir_of v = raise type_error "expected str, bytes or os.PathLike object"

-- The host name of a condition goes before that of the metric. Zabbix items hold `str(host)`.
unfoldable pub chosen_host : Builtins → Option Value → Option String → Option String
chosen_host b none metric_host = metric_host
chosen_host b (some v) metric_host = some (b.to_str v)

-- The result of `collect`, at a time, after a duration.
unfoldable pub log_result : Builtins → ℕ → Float → MetricDef → Entry → String → MetricResult
log_result b now duration metric (value, host) source = record {
  metric_id = metric.id;
  key = metric.key;
  value = some (b.to_str value);
  value_type = metric.value_type;
  timestamp = now;
  collector = "log";
  delivery = metric.delivery;
  status = Status.ok;
  unit = metric.unit;
  tags = metric.tags;
  error = none;
  source = source;
  duration_ms = duration;
  host_name = chosen_host b host metric.host_name;
}

unfoldable pub source_of : Builtins → MetricDef → String
source_of b metric =
    (("log mode=" <> b.to_str (get_or "mode" metric.params (str "condition"))) <> " path=")
    <> b.to_str (get_or "path" metric.params (str ""))

-- `collect`: the two modes.
unfoldable pub collect_mode : Files → Builtins → Value → MetricDef → Action States Entry
unfolding state_dir_of
collect_mode fs b (str mode) metric =
    if mode == "condition"
    then (do
      state_dir ← lift (state_dir_of (get_or "state_dir" metric.params (str "state")))
      log_condition fs b state_dir metric)
    else if mode == "count"
    then (do count ← lift (count_metric fs b metric); pure (int (pos count), none))
    else lift (raise value_error "Unknown log collector mode")
collect_mode fs b v metric = lift (raise value_error "Unknown log collector mode")

unfoldable pub collect : Files → Builtins → ℕ → Float → MetricDef → Action States MetricResult
collect fs b now duration metric = do
  entry ← collect_mode fs b (get_or "mode" metric.params (str "condition")) metric
  pure (log_result b now duration metric entry (source_of b metric))

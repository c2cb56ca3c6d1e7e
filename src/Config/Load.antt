-- ===== src/Config/Load.antt =====
-- config_loader.py, `load_metrics_config` and `_load_included_metrics`. The sets of the ids and the
-- keys seen so far, and the list of metrics, are the state `Seen`. A section that should be a mapping
-- and is none raises here when it is read, in the source at its first use.
pub mod Rounds
pub mod Unique
use zabbig.Prelude.{
  ℕ, suc, zero, String, Bool, true, false, not, Option, none, some, List, [], ◌∷◌, ◌++◌, ◌==◌,
  string_eq, contains, if◌then◌else◌, Result, ok, err, raise, Exc, ExcKind, attribute_error,
  type_error, config_error, file_not_found, ◌>>=◌,
}
use zabbig.Prelude.Dict.{Dict}
use zabbig.Prelude.Float.{ℤ, pos, Float, float_of, eq_float}
use zabbig.Models.{LoadedMetric}
use zabbig.Models.Dynamic.{
  Value, null, bool, int, float, str, list, nil, dict, Fields, end, field, get, items, merged,
  in_set, Casts,
}
use zabbig.Config.{report_error, report_if}
use zabbig.Config.Yaml.{ConfigFiles, read_yaml, fields_of}
use zabbig.Config.Metric.{CollectorDefaults, parse_metric}

-- `MetricsConfig`
pub record MetricsConfig : Type 0 where
  pub version : ℤ
  pub defaults : Fields
  pub collector_defaults : Fields
  pub metrics : List LoadedMetric
  pub include : List Value

pub record Seen : Type 0 where
  pub ids : List Value
  pub keys : List Value
  pub metrics : List LoadedMetric

abbrev pub nothing_seen : Seen
nothing_seen = record { ids = []; keys = []; metrics = [] }

-- `v == 1`
unfoldable pub is_one : Value → Bool
is_one (int (pos (suc zero))) = true
is_one (bool b) = b
is_one (float x) = eq_float x (float_of 1)
is_one v = false

module _ (c : Casts) (strict : Bool) where
  -- One round of the loop over the main file, for a metric: a duplicate is reported, and kept.
  unfoldable pub add_metric : LoadedMetric → Seen → Result Seen
  add_metric m seen = do
    same_id ← in_set seen.ids m.id
    id ← report_if strict same_id "Duplicate metric id"
    same_key ← in_set seen.keys m.key
    key ← report_if strict same_key "Duplicate Zabbix key"
    ok (record {
      ids = m.id ∷ seen.ids;
      keys = m.key ∷ seen.keys;
      metrics = seen.metrics ++ (m ∷ []);
    })

  -- What an included metric adds whose id is new, once its key has been looked up.
  unfoldable pub include_new : LoadedMetric → Seen → Bool → Result Seen
  include_new m seen true = do
    warned ← report_error strict "Duplicate Zabbix key"
    ok (record seen { ids = m.id ∷ seen.ids })
  include_new m seen false = ok (record {
    ids = m.id ∷ seen.ids;
    keys = m.key ∷ seen.keys;
    metrics = seen.metrics ++ (m ∷ []);
  })

  unfoldable pub include_unless : LoadedMetric → Seen → Bool → Result Seen
  include_unless m seen true = do warned ← report_error strict "Duplicate metric id"; ok seen
  include_unless m seen false = do same_key ← in_set seen.keys m.key; include_new m seen same_key

  -- The same for an included file, where a duplicate is reported and left out. An id counts as seen
  -- also if the metric is then left out for its key.
  unfoldable pub include_metric : LoadedMetric → Seen → Result Seen
  include_metric m seen = do same_id ← in_set seen.ids m.id; include_unless m seen same_id

  -- `if m is None: continue`
  unfoldable pub add_parsed :
      (LoadedMetric → Seen → Result Seen) → Option LoadedMetric → Seen → Result Seen
  add_parsed add none seen = ok seen
  add_parsed add (some m) seen = add m seen

  -- The loop over the entries of a file.
  unfoldable pub add_all :
      (LoadedMetric → Seen → Result Seen)
      → Dict CollectorDefaults
      → Fields
      → List Value
      → Seen
      → Result Seen
  add_all add collector_defaults defaults [] seen = ok seen
  add_all add collector_defaults defaults (v ∷ raw_metrics) seen = do
    raw_metric ← fields_of attribute_error v
    m ← parse_metric c strict collector_defaults defaults raw_metric
    next ← add_parsed add m seen
    add_all add collector_defaults defaults raw_metrics next

  -- `collector_defaults`, one collector after the other.
  unfoldable pub parse_collector_defaults : Fields → Fields → Result (Dict CollectorDefaults)
  parse_collector_defaults defaults end = ok []
  parse_collector_defaults defaults (field cname v rest) = do
    craw ← fields_of attribute_error v
    timeout ←
        c.to_float
          (get "timeout_seconds" craw (get "timeout_seconds" defaults (float (float_of 10))))
    others ← parse_collector_defaults defaults rest
    ok (
        (
          cname,
          record {
            timeout_seconds = timeout;
            delivery = c.to_str (get "delivery" craw (get "delivery" defaults (str "batch")));
          },
        )
        ∷ others)

  module _ (files : ConfigFiles) where
    -- The file of an include, or the exception that the source reports.
    unread : ExcKind → Exc → Seen → Result Seen
    unread file_not_found e seen = do
      warned ← report_error strict "Cannot load included metrics file"
      ok seen
    unread config_error e seen = do
      warned ← report_error strict "Cannot load included metrics file"
      ok seen
    unread kind e seen = err e

    unfoldable pub include_raw : Fields → Dict CollectorDefaults → Fields → Seen → Result Seen
    include_raw defaults collector_defaults raw seen = do
      local ← fields_of type_error (get "defaults" raw (dict end))
      raw_metrics ← c.to_list (get "metrics" raw (list nil))
      add_all include_metric collector_defaults (merged defaults local) raw_metrics seen

    -- `_load_included_metrics`
    unfoldable pub load_included_metrics :
        Fields → Dict CollectorDefaults → String → Seen → Result Seen
    unfolding unread
    load_included_metrics defaults collector_defaults path seen = elim (read_yaml files path) [
      | ok raw ↦ include_raw defaults collector_defaults raw seen
      | err e ↦ unread e.kind e seen
    ]

    unfoldable pub load_matched : Fields → Dict CollectorDefaults → List String → Seen → Result Seen
    load_matched defaults collector_defaults [] seen = ok seen
    load_matched defaults collector_defaults (path ∷ matched) seen = do
      next ← load_included_metrics defaults collector_defaults path seen
      load_matched defaults collector_defaults matched next

    -- `pattern if os.path.isabs(pattern) else os.path.join(base_dir, pattern)`
    unfoldable pub resolved : String → String → String
    resolved base pattern = if files.isabs pattern then pattern else files.join base pattern

    unfoldable pub load_pattern :
        String → Fields → Dict CollectorDefaults → Value → Seen → Result Seen
    load_pattern base defaults collector_defaults (str pattern) seen =
        load_matched defaults collector_defaults (files.sorted (files.glob (resolved base pattern)))
          seen
    load_pattern base defaults collector_defaults v seen = do
      warned ← report_error strict "include pattern must be a string"
      ok seen

    unfoldable pub load_patterns :
        String → Fields → Dict CollectorDefaults → List Value → Seen → Result Seen
    load_patterns base defaults collector_defaults [] seen = ok seen
    load_patterns base defaults collector_defaults (v ∷ patterns) seen = do
      next ← load_pattern base defaults collector_defaults v seen
      load_patterns base defaults collector_defaults patterns next

    unfoldable pub include_patterns : Value → Result (List Value)
    include_patterns (list vs) = ok (items vs)
    include_patterns v = do
      warned ← report_error strict "'include' must be a list of glob patterns"
      ok []

    -- The metrics of a raw file and of the files that it includes.
    unfoldable pub load_metrics :
        String → Fields → Fields → Dict CollectorDefaults → Result (List Value × Seen)
    load_metrics path raw defaults collector_defaults = do
      raw_metrics ← c.to_list (get "metrics" raw (list nil))
      main ← add_all add_metric collector_defaults defaults raw_metrics nothing_seen
      patterns ← include_patterns (get "include" raw (list nil))
      seen ← load_patterns (files.base_dir path) defaults collector_defaults patterns main
      ok (patterns, seen)

    -- `load_metrics_config`
    unfoldable pub load_metrics_config : String → Result MetricsConfig
    load_metrics_config path = do
      raw ← read_yaml files path
      supported ←
          report_if strict (not (is_one (get "version" raw (int (pos 1))))) "Unsupported version"
      defaults ← fields_of attribute_error (get "defaults" raw (dict end))
      collector_raw ← fields_of attribute_error (get "collector_defaults" raw (dict end))
      collector_defaults ← parse_collector_defaults defaults collector_raw
      loaded ← load_metrics path raw defaults collector_defaults
      version ← c.to_int (get "version" raw (int (pos 1)))
      ok (record {
        version = version;
        defaults = defaults;
        collector_defaults = collector_raw;
        metrics = loaded.1.metrics;
        include = loaded.0;
      })

-- ===== src/Config/Client.antt =====
-- config_loader.py, `load_client_config`: client.yaml becomes a `ClientConfig`. `bool(v)` is Python's
-- truth of a value, and `socket.gethostname()` is an argument. A section that is no mapping raises here
-- when it is read.
pub mod Valid
use zabbig.Prelude.{
  String, Bool, true, false, Option, none, some, List, [], ◌∷◌, map, ◌==◌, string_eq, if◌then◌else◌,
  Result, ok, err, raise, ExcKind, attribute_error, config_error, ◌>>=◌,
}
use zabbig.Prelude.Float.{ℤ, pos, Float, float_of}
use zabbig.Models.{
  ZabbixConfig, RuntimeConfig, BatchingConfig, LogFileConfig, LoggingConfig, StateConfig,
  FeaturesConfig, ClientConfig,
}
use zabbig.Models.Dynamic.{
  Value, null, bool, int, float, str, list, cons, nil, dict, Fields, end, get, items, truthy, Casts,
}
use zabbig.Config.{validate_client_config}
use zabbig.Config.Yaml.{ConfigFiles, read_yaml, fields_of}

module _ (c : Casts) where
  -- A number of a section, or its default.
  abbrev pub float_field : String → Float → Fields → Result Float
  float_field key default section = c.to_float (get key section (float default))

  abbrev pub int_field : String → ℤ → Fields → Result ℤ
  int_field key default section = c.to_int (get key section (int default))

  abbrev pub bool_field : String → Bool → Fields → Bool
  bool_field key default section = truthy (get key section (bool default))

  abbrev pub text_field : String → String → Fields → String
  text_field key default section = c.to_str (get key section (str default))

  unfoldable pub parse_hosts : Value → Result (List String)
  parse_hosts (list vs) = ok (map c.to_str (items vs))
  parse_hosts v = raise config_error "zabbix.server_host must be a list"

  unfoldable pub parse_zabbix : String → Fields → Result ZabbixConfig
  parse_zabbix hostname z = do
    server_hosts ← parse_hosts (get "server_host" z (list (cons (str "127.0.0.1") nil)))
    server_port ← int_field "server_port" (pos 10051) z
    connect_timeout ← float_field "connect_timeout_seconds" (float_of 10) z
    send_timeout ← float_field "send_timeout_seconds" (float_of 30) z
    ok (record {
      server_hosts = server_hosts;
      server_port = server_port;
      host_name = text_field "host_name" hostname z;
      host_group = text_field "host_group" "zabbig Clients" z;
      connect_timeout_seconds = connect_timeout;
      send_timeout_seconds = send_timeout;
    })

  unfoldable pub parse_batching : Fields → Result BatchingConfig
  parse_batching b = do
    window ← float_field "batch_collection_window_seconds" (float_of 60) b
    max_size ← int_field "batch_send_max_size" (pos 250) b
    chunk_size ← int_field "batch_chunk_size" (pos 250) b
    micro_window ← int_field "immediate_micro_batch_window_ms" (pos 200) b
    ok (record {
      batch_collection_window_seconds = window;
      batch_send_max_size = max_size;
      batch_chunk_size = chunk_size;
      flush_immediate_separately = bool_field "flush_immediate_separately" true b;
      immediate_micro_batch_window_ms = micro_window;
    })

  unfoldable pub parse_features : Fields → FeaturesConfig
  parse_features ft = record {
    self_monitoring_metrics = bool_field "self_monitoring_metrics" true ft;
    emit_partial_failure_metrics = bool_field "emit_partial_failure_metrics" false ft;
    strict_config_validation = bool_field "strict_config_validation" true ft;
    skip_disabled_metrics = bool_field "skip_disabled_metrics" true ft;
  }

  module _ (files : ConfigFiles) (config_dir : String) where
    -- `_resolve`
    unfoldable pub resolve : String → String
    resolve p = if files.isabs p then p else files.join config_dir p

    unfoldable pub parse_runtime : Fields → Result RuntimeConfig
    parse_runtime r = do
      overall ← float_field "overall_timeout_seconds" (float_of 240) r
      concurrency ← int_field "max_concurrency" (pos 8) r
      ok (record {
        overall_timeout_seconds = overall;
        max_concurrency = concurrency;
        lock_file = resolve (text_field "lock_file" "state/zabbig_client.lock" r);
        dry_run = bool_field "dry_run" false r;
        fail_fast = bool_field "fail_fast" false r;
        proc_root = text_field "proc_root" "/proc" r;
      })

    log_file_of : Fields → Result (Option LogFileConfig)
    log_file_of f = do
      max_size ← int_field "max_size_mb" (pos 10) f
      max_backups ← int_field "max_backups" (pos 5) f
      ok (
          some (record {
            path = resolve (c.to_str (get "path" f (str "")));
            max_size_mb = max_size;
            max_backups = max_backups;
            compress = bool_field "compress" true f;
          }))

    named_log_file : Value → Result (Option LogFileConfig)
    unfolding log_file_of
    named_log_file (str path) = ok (
        some (record {
          path = resolve path;
          max_size_mb = pos 10;
          max_backups = pos 5;
          compress = true;
        }))
    named_log_file (dict f) =
        let parsed = log_file_of f in
        if truthy (get "path" f (str ""))
        then parsed
        else raise config_error "logging.file.path is required when file is a mapping"
    named_log_file v = raise config_error "logging.file must be a path string or a mapping"

    -- `_parse_log_file`
    unfoldable pub parse_log_file : Value → Result (Option LogFileConfig)
    unfolding named_log_file
    parse_log_file raw_file = if truthy raw_file then named_log_file raw_file else ok none

    unfoldable pub parse_logging : Fields → Result LoggingConfig
    parse_logging lg = do
      file ← parse_log_file (get "file" lg null)
      ok (record {
        level = c.upper (text_field "level" "INFO" lg);
        format = text_field "format" "text" lg;
        file = file;
        console = bool_field "console" true lg;
      })

    unfoldable pub parse_state : Fields → StateConfig
    parse_state st = record {
      enabled = bool_field "enabled" false st;
      directory = resolve (text_field "directory" "state" st);
    }

    -- The six sections of the file.
    unfoldable pub parse_client : String → Fields → Result ClientConfig
    parse_client hostname raw = do
      z ← fields_of attribute_error (get "zabbix" raw (dict end))
      zabbix ← parse_zabbix hostname z
      r ← fields_of attribute_error (get "runtime" raw (dict end))
      runtime ← parse_runtime r
      b ← fields_of attribute_error (get "batching" raw (dict end))
      batching ← parse_batching b
      lg ← fields_of attribute_error (get "logging" raw (dict end))
      logging ← parse_logging lg
      st ← fields_of attribute_error (get "state" raw (dict end))
      ft ← fields_of attribute_error (get "features" raw (dict end))
      ok (record {
        zabbix = zabbix;
        runtime = runtime;
        batching = batching;
        logging = logging;
        state = parse_state st;
        features = parse_features ft;
      })

  -- `load_client_config`
  unfoldable pub load_client_config : ConfigFiles → String → String → Result ClientConfig
  load_client_config files hostname path = do
    raw ← read_yaml files path
    cfg ← parse_client files (files.base_dir path) hostname raw
    valid ← validate_client_config cfg
    ok cfg

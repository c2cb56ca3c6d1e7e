-- ===== src/Tests/Clients.antt =====
-- `load_client_config` on an empty client.yaml.
use native.Mathlib.Decide.{ℕ_discrete}
use zabbig.Prelude.{◌≡◌, refl, true, false, none, [], ◌∷◌, any, nat_eq, string_eq, ok}
use zabbig.Prelude.Float.{pos, float_of, lt_float, eq_float}
use zabbig.Models.{ClientConfig}
use zabbig.Models.Dynamic.{null, find, get, items, truthy}
use zabbig.Config.{validate_client_config}
use zabbig.Config.Yaml.{ConfigFiles, read_mapping, read_yaml, fields_of}
use zabbig.Config.Client.{
  parse_hosts, parse_zabbix, parse_batching, parse_features, resolve, parse_runtime, parse_log_file,
  parse_logging, parse_state, parse_client, load_client_config,
}
use zabbig.Config.Client.Valid.{IsValid, load_client_config-IsValid}
use zabbig.Tests.Configs.{casts}

abbrev empty_file : ConfigFiles
empty_file = record {
  is_file = λ path. true;
  safe_load = λ path. ok null;
  glob = λ pattern. [];
  sorted = λ paths. paths;
  base_dir = λ path. path;
  isabs = λ path. true;
  join = λ base path. path;
}

abbrev default_config : ClientConfig
default_config = record {
  zabbix = record {
    server_hosts = "127.0.0.1" ∷ [];
    server_port = pos 10051;
    host_name = "box";
    host_group = "zabbig Clients";
    connect_timeout_seconds = float_of 10;
    send_timeout_seconds = float_of 30;
  };
  runtime = record {
    overall_timeout_seconds = float_of 240;
    max_concurrency = pos 8;
    lock_file = "state/zabbig_client.lock";
    dry_run = false;
    fail_fast = false;
    proc_root = "/proc";
  };
  batching = record {
    batch_collection_window_seconds = float_of 60;
    batch_send_max_size = pos 250;
    batch_chunk_size = pos 250;
    flush_immediate_separately = true;
    immediate_micro_batch_window_ms = pos 200;
  };
  logging = record { level = "INFO"; format = "text"; file = none; console = true };
  state = record { enabled = false; directory = "state" };
  features = record {
    self_monitoring_metrics = true;
    emit_partial_failure_metrics = false;
    strict_config_validation = true;
    skip_disabled_metrics = true;
  };
}

loads_client : load_client_config casts empty_file "box" "client.yaml" ≡ ok default_config
unfolding load_client_config parse_client parse_zabbix parse_hosts parse_runtime parse_batching
    parse_logging parse_log_file parse_state parse_features resolve read_yaml read_mapping fields_of
    find get items truthy validate_client_config any float_of lt_float eq_float string_eq nat_eq
    ℕ_discrete
loads_client = refl

load_client_config-IsValid_example : IsValid default_config
load_client_config-IsValid_example =
    load_client_config-IsValid casts empty_file "box" "client.yaml" default_config loads_client

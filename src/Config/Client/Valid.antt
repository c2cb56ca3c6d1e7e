-- ===== src/Config/Client/Valid.antt =====
-- config_loader.py, `load_client_config`: what a loaded configuration is known to satisfy.
use mathlib.Core.Path.{subst}
use mathlib.Core.Bool.{true≢false}
use zabbig.Prelude.{
  ◌≡◌, ◌≢◌, refl, sym, ap, ◌∙◌, String, Bool, true, false, not, ◌||◌, Bool-cases, inl, inr, List,
  [], ◌∷◌, All, any, contains, ◌==◌, string_eq, ok, invert, ok-injective, ok-ne-err, arith,
}
use zabbig.Prelude.Float.{pos, ltb_ℤ}
use zabbig.Models.{ClientConfig}
use zabbig.Models.Dynamic.{Casts}
use zabbig.Config.{refuse_if, not_positive, log_levels, no_hosts, validate_client_config}
use zabbig.Config.Yaml.{ConfigFiles, read_yaml}
use zabbig.Config.Client.{parse_client, load_client_config}

-- What the program may rely on: a server to send to, and none without a name; a port of TCP; a host name;
-- times for the run and for the batch that are not `<= 0`; and at least one collector at a time.
pub record IsValid (cfg : ClientConfig) : Type 0 where
  pub hosts : cfg.zabbix.server_hosts ≢ []
  pub named : All (λ (h : String). h ≢ "") cfg.zabbix.server_hosts
  pub port_low : ltb_ℤ cfg.zabbix.server_port (pos 1) ≡ false
  pub port_high : ltb_ℤ (pos 65535) cfg.zabbix.server_port ≡ false
  pub host_name : cfg.zabbix.host_name ≢ ""
  pub overall : not_positive cfg.runtime.overall_timeout_seconds ≡ false
  pub concurrency : ltb_ℤ cfg.runtime.max_concurrency (pos 1) ≡ false
  pub window : not_positive cfg.batching.batch_collection_window_seconds ≡ false
  pub level : contains log_levels cfg.logging.level ≡ true

refused :
    (condition : Bool) (message : String) (u : Unit {0})
    → refuse_if condition message ≡ ok u
    → condition ≡ false
refused true message u e = absurd (ok-ne-err u _ (sym e))
refused false message u e = refl

some_hosts : (hosts : List String) → no_hosts hosts ≡ false → hosts ≢ []
unfolding no_hosts
some_hosts hosts h e = true≢false (sym (ap no_hosts e) ∙ h)

not_any :
    (hosts : List String) → any (λ h. h == "") hosts ≡ false → All (λ (h : String). h ≢ "") hosts
unfolding any
not_any [] h = tt
not_any (x ∷ hosts) h = elim (Bool-cases (x == "")) [
  | inl empty ↦ absurd (true≢false (rw empty at h))
  | inr filled ↦ (λ same. ground (arith, filled, same), not_any hosts (rw filled at h))
]

validated : (cfg : ClientConfig) (u : Unit {0}) → validate_client_config cfg ≡ ok u → IsValid cfg
unfolding validate_client_config
validated cfg u e =
    let (u1, hosts, e1) = invert (refuse_if (no_hosts cfg.zabbix.server_hosts) _) _ u e in
    let (u2, named, e2) =
      invert (refuse_if (any (λ h. h == "") cfg.zabbix.server_hosts) _) _ u e1 in
    let (u3, port, e3) =
      invert
        (refuse_if
          (ltb_ℤ cfg.zabbix.server_port (pos 1) || ltb_ℤ (pos 65535) cfg.zabbix.server_port) _)
        _ u e2 in
    let (u4, name, e4) = invert (refuse_if (cfg.zabbix.host_name == "") _) _ u e3 in
    let (u5, overall, e5) =
      invert (refuse_if (not_positive cfg.runtime.overall_timeout_seconds) _) _ u e4 in
    let (u6, concurrency, e6) =
      invert (refuse_if (ltb_ℤ cfg.runtime.max_concurrency (pos 1)) _) _ u e5 in
    let (u7, window, e7) =
      invert (refuse_if (not_positive cfg.batching.batch_collection_window_seconds) _) _ u e6 in
    let ports = refused _ _ u3 port in
    let filled = refused _ _ u4 name in
    let level = refused (not (contains log_levels cfg.logging.level)) _ u e7 in
    record {
      hosts = some_hosts cfg.zabbix.server_hosts (refused _ _ u1 hosts);
      named = not_any cfg.zabbix.server_hosts (refused _ _ u2 named);
      port_low = ground (arith, ports);
      port_high = ground (arith, ports);
      host_name = λ same. ground (arith, filled, same);
      overall = refused _ _ u5 overall;
      concurrency = refused _ _ u6 concurrency;
      window = refused _ _ u7 window;
      level = ground (arith, level);
    }

-- A client.yaml that loads gives a configuration with a server, no empty server name, a port between 1 and
-- 65535, a host name, times for the run and for the batch window of which `<= 0` is false, so that they are
-- positive or nan, at least one collector at a time, and a level that the logging library knows.
pub load_client_config-IsValid :
    (c : Casts) (files : ConfigFiles) (hostname path : String) (cfg : ClientConfig)
    → load_client_config c files hostname path ≡ ok cfg
    → IsValid cfg
unfolding load_client_config
load_client_config-IsValid c files hostname path cfg e =
    let (raw, _, e1) = invert (read_yaml files path) _ cfg e in
    let (parsed, _, e2) =
      invert (parse_client c files (files.base_dir path) hostname raw) _ cfg e1 in
    let (u, valid, e3) = invert (validate_client_config parsed) _ cfg e2 in
    subst IsValid (ok-injective _ _ e3) (validated parsed u valid)

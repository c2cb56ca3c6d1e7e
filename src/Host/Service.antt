-- ===== src/Host/Service.antt =====
-- zabbig_client/src/zabbig_client/collectors/service.py: whether a service runs, by systemctl or by the
-- command lines below /proc, which are scanned once per process and root. What systemctl, the scan and
-- the `re` module give is the parameter `Services`.
pub mod Cache
use zabbig.Prelude.{
  ℕ, String, Bool, true, false, Option, none, some, List, [], ◌∷◌, ◌++◌, any, if◌then◌else◌, Result,
  ok, err, raise, Exc, ExcKind, key_error, value_error, runtime_error, ◌==◌, nat_eq,
}
use zabbig.Prelude.State.{Action, pure, lift, ◌>>=◌}
use zabbig.Prelude.Dict.{Dict, lookup, insert}
use zabbig.Prelude.Float.{Float}
use zabbig.Models.{MetricDef, MetricResult}
use zabbig.Models.Dynamic.{Value}
use zabbig.Host.{host_param, is_text, host_result}

-- `subprocess.run(…, timeout=5)`: an exit code, a FileNotFoundError, a TimeoutExpired, or another
-- exception.
pub data Ran : Type 0 where
  exited : ℕ → Ran
  no_systemctl timed_out : Ran
  failed : Exc → Ran

-- The read of a `cmdline`: its text, or one of the three exceptions that are passed over, or another.
pub data Cmdline : Type 0 where
  line : String → Cmdline
  passed_over : Cmdline
  broken : Exc → Cmdline

-- `os.scandir`: the names, a PermissionError, or another exception.
pub data Listing : Type 0 where
  names : List String → Listing
  forbidden : Listing
  unlisted : Exc → Listing

pub record Services : Type 0 where
  pub systemctl : Value → Ran
  -- `re.compile(pattern)`, and whether its `search` finds something
  pub compile : Value → Result (String → Bool)
  pub scandir : String → Listing
  pub is_digit_name : String → Bool
  -- `{proc_root}/{name}/cmdline` with its zero bytes as spaces, decoded
  pub read_cmdline : String → String → Cmdline
  -- The text of a path
  pub root_of : Value → String
  pub show_int : ℕ → String
  pub systemd_source : Value → String
  pub scan_source : Value → Value → String

-- `_proc_cmdlines_cache`
abbrev pub CmdlineCache : Type 0
CmdlineCache = Dict (List String)

-- `_systemd_check`
after_systemctl : Ran → Result ℕ
after_systemctl (exited code) = ok (if code == 0 then 1 else 0)
after_systemctl no_systemctl = raise runtime_error "systemctl not found"
after_systemctl timed_out = ok 0
after_systemctl (failed e) = err e

unfoldable pub systemd_check : Services → Value → Result ℕ
unfolding after_systemctl
systemd_check os service_name = after_systemctl (os.systemctl service_name)

-- The command line of one process joins those of the others, or is passed over.
add_cmdline : Cmdline → Result (List String) → Result (List String)
add_cmdline (line text) (ok cmdlines) = ok (text ∷ cmdlines)
add_cmdline (line text) (err e) = err e
add_cmdline passed_over rest = rest
add_cmdline (broken e) rest = err e

module _ (os : Services) where
  -- The loop over the entries of the directory.
  unfoldable pub scan_entries : String → List String → Result (List String)
  unfolding add_cmdline
  scan_entries proc_root [] = ok []
  scan_entries proc_root (name ∷ entries) =
      let rest = scan_entries proc_root entries in
      if os.is_digit_name name then add_cmdline (os.read_cmdline proc_root name) rest else rest

  scan_listing : String → Listing → Result (List String)
  scan_listing proc_root (names entries) = scan_entries proc_root entries
  scan_listing proc_root forbidden = raise runtime_error "Cannot scan"
  scan_listing proc_root (unlisted e) = err e

  -- The command lines of all processes.
  unfoldable pub scan_proc : String → Result (List String)
  unfolding scan_listing
  scan_proc proc_root = scan_listing proc_root (os.scandir proc_root)

  pub store_scan :
      String → Result (List String) → CmdlineCache → Result (List String) × CmdlineCache
  store_scan proc_root (ok cmdlines) cache = (ok cmdlines, insert proc_root cmdlines cache)
  store_scan proc_root (err e) cache = (err e, cache)

  -- The scan, unless the cache has one; a scan that raises is not stored.
  unfoldable pub cached_scan : String → Action CmdlineCache (List String)
  unfolding store_scan
  cached_scan proc_root cache = elim (lookup proc_root cache) [
    | some cmdlines ↦ (ok cmdlines, cache)
    | none ↦ store_scan proc_root (scan_proc proc_root) cache
  ]

  -- `_process_check`
  unfoldable pub process_check : Value → String → Action CmdlineCache ℕ
  process_check pattern proc_root = do
    search ← lift (os.compile pattern)
    cmdlines ← cached_scan proc_root
    pure (if any search cmdlines then 1 else 0)

  -- `metric.params[name]`
  required_param : String → MetricDef → Result Value
  required_param name metric = elim (lookup name metric.params) [
    | some v ↦ ok v
    | none ↦ raise key_error name
  ]

  -- The state of the service, and the source.
  unfoldable pub service_state : MetricDef → Action CmdlineCache (ℕ × String)
  unfolding required_param
  service_state metric =
      let check_mode = host_param "check_mode" "systemd" metric in
      let proc_root = host_param "proc_root" "/proc" metric in
      if is_text check_mode "systemd"
      then (do
        service_name ← lift (required_param "service_name" metric)
        state ← lift (systemd_check os service_name)
        pure (state, os.systemd_source service_name))
      else if is_text check_mode "process"
      then (do
        pattern ← lift (required_param "process_pattern" metric)
        state ← process_check pattern (os.root_of proc_root)
        pure (state, os.scan_source pattern proc_root))
      else lift (raise value_error "Unknown service check_mode")

  -- `ServiceCollector.collect`, at a time and with its duration
  unfoldable pub collect_service : ℕ → Float → MetricDef → Action CmdlineCache MetricResult
  collect_service now duration metric = do
    found ← service_state metric
    pure (host_result "service" metric now duration found.1 (os.show_int found.0))

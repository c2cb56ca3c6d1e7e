-- ===== src/Config.antt =====
-- zabbig_client/src/zabbig_client/config_loader.py: errors and warnings, the schedule fields of a
-- metric, and the checks of the client configuration. Config/Metric.antt has `_parse_metric`,
-- Config/Params.antt the checks of params, Config/Load.antt the metrics and Config/Client.antt the
-- client. A warning of a lenient load is only logged. The text of a time field is ASCII.
pub mod Hhmm
pub mod Params
pub mod Yaml
pub mod Metric
pub mod Load
pub mod Client
use zabbig.Prelude.{
  ℕ, zero, suc, ◌-◌, String, Bool, true, false, not, ◌||◌, Option, none, some, List, [], ◌∷◌, any,
  length, take, drop, ltb, ◌==◌, nat_eq, string_eq, contains, if◌then◌else◌, Result, ok, err, raise,
  Exc, ExcKind, config_error, value_error, type_error, ◌>>=◌,
}
use zabbig.Prelude.Text.{codes, is_digits, int_of}
use zabbig.Prelude.Float.{ℤ, pos, negsuc, ltb_ℤ, Float, lt_float, eq_float, zero_float}
use zabbig.Models.{ClientConfig, Frequency, every, word}
use zabbig.Models.Dynamic.{Value, null, str, Fields, find}
use zabbig.Scheduler.{int_or_raise}

-- `_config_error(message, strict)`
unfoldable pub report_error : Bool → String → Result (Unit {0})
report_error strict message = if strict then raise config_error message else ok tt

-- `if condition: _config_error(message, strict)`
unfoldable pub report_if : Bool → Bool → String → Result (Unit {0})
unfolding report_error
report_if strict condition message = if condition then report_error strict message else ok tt

-- `_config_error(message, strict)` and then `return None`.
unfoldable pub rejected : {A : Type 0} → Bool → String → Result (Option A)
rejected strict message = if strict then raise config_error message else ok none

abbrev pub pad_text : ℕ → String → String
pad_text zero s = s
pad_text (suc n) s = String.◌∷◌ "0" (pad_text n s)

-- `s.zfill(width)`, but for a sign, behind which zfill would pad; a signed text is rejected anyway.
unfoldable pub zfill : ℕ → String → String
zfill width s = pad_text (width - length (codes s)) s

-- The ranges of the hours and the minutes.
unfoldable pub in_range : Bool → String → ℕ → ℕ → Result (Option String)
in_range strict s h m =
    if ltb 23 h
    then rejected strict "invalid hours"
    else if ltb 59 m
    then rejected strict "invalid minutes"
    else ok (some s)

unfoldable pub checked_hhmm : Bool → String → Result (Option String)
checked_hhmm strict s = do
  h ← int_or_raise (int_of (take 2 (codes s)))
  m ← int_or_raise (int_of (drop 2 (codes s)))
  in_range strict s h m

-- The checks of a padded text.
unfoldable pub hhmm_text : Bool → String → Result (Option String)
hhmm_text strict s =
    let checked = checked_hhmm strict s in
    if not (is_digits (codes s)) || not (length (codes s) == 4)
    then rejected strict "must be a 4-digit HHMM value"
    else checked

-- `_parse_hhmm_field` for the value of the field.
unfoldable pub parse_hhmm_field : (Value → String) → Bool → Option Value → Result (Option String)
parse_hhmm_field to_str strict none = ok none
parse_hhmm_field to_str strict (some null) = ok none
parse_hhmm_field to_str strict (some value) = hhmm_text strict (zfill 4 (to_str value))

-- `except (TypeError, ValueError)` around `int(value)`.
not_an_integer : Bool → ExcKind → Exc → Result (Option ℤ)
not_an_integer strict value_error e = rejected strict "must be an integer"
not_an_integer strict type_error e = rejected strict "must be an integer"
not_an_integer strict kind e = err e

unfoldable pub nonneg : Bool → Result ℤ → Result (Option ℤ)
unfolding not_an_integer
nonneg strict (ok (pos n)) = ok (some (pos n))
nonneg strict (ok (negsuc n)) = rejected strict "must be >= 0"
nonneg strict (err e) = not_an_integer strict e.kind e

-- `_parse_int_nonneg_field`
unfoldable pub parse_int_nonneg_field : (Value → Result ℤ) → Bool → Option Value → Result (Option ℤ)
parse_int_nonneg_field to_int strict none = ok none
parse_int_nonneg_field to_int strict (some null) = ok none
parse_int_nonneg_field to_int strict (some value) = nonneg strict (to_int value)

abbrev pub frequency_of : Option ℤ → Option Frequency
frequency_of none = none
frequency_of (some i) = some (every i)

-- `_parse_run_frequency_field`
unfoldable pub parse_run_frequency_field :
    (Value → Result ℤ) → Bool → Option Value → Result (Option Frequency)
parse_run_frequency_field to_int strict none = ok none
parse_run_frequency_field to_int strict (some null) = ok none
parse_run_frequency_field to_int strict (some (str value)) =
    if value == "even" || value == "odd"
    then ok (some (word value))
    else rejected strict "must be an integer or even/odd"
parse_run_frequency_field to_int strict (some value) = do
  i ← nonneg strict (to_int value)
  ok (frequency_of i)

-- `if condition: raise ConfigError(message)`
abbrev pub refuse_if : Bool → String → Result (Unit {0})
refuse_if true message = raise config_error message
refuse_if false message = ok tt

-- `x <= 0`, which is false at a nan.
abbrev pub not_positive : Float → Bool
not_positive x = lt_float x zero_float || eq_float x zero_float

abbrev pub log_levels : List String
log_levels = "DEBUG" ∷ "INFO" ∷ "WARNING" ∷ "ERROR" ∷ "CRITICAL" ∷ []

no_hosts : List String → Bool
no_hosts [] = true
no_hosts (h ∷ hosts) = false

-- `_validate_client_config`
unfoldable pub validate_client_config : ClientConfig → Result (Unit {0})
unfolding no_hosts
validate_client_config cfg = do
  hosts ← refuse_if (no_hosts cfg.zabbix.server_hosts) "must contain at least one entry"
  entries ← refuse_if (any (λ h. h == "") cfg.zabbix.server_hosts) "must not be empty strings"
  port ←
      refuse_if (ltb_ℤ cfg.zabbix.server_port (pos 1) || ltb_ℤ (pos 65535) cfg.zabbix.server_port)
        "zabbix.server_port out of range"
  name ← refuse_if (cfg.zabbix.host_name == "") "zabbix.host_name must not be empty"
  timeout ← refuse_if (not_positive cfg.runtime.overall_timeout_seconds) "must be > 0"
  concurrency ← refuse_if (ltb_ℤ cfg.runtime.max_concurrency (pos 1)) "must be >= 1"
  window ← refuse_if (not_positive cfg.batching.batch_collection_window_seconds) "must be > 0"
  refuse_if (not (contains log_levels cfg.logging.level)) "logging.level not valid"

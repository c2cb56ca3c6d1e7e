-- ===== src/Probe.antt =====
-- zabbig_client/src/zabbig_client/collectors/probe.py: TCP and HTTP probes, and the results of a probe with
-- its sub-keys. Sockets, TLS, requests and urllib are the parameter `Reach`; the reuse of HTTP sessions is
-- part of `request`. Conditions are read as mappings before the first line, not one by one.
pub mod Mirror
use zabbig.Prelude.{
  ℕ, String, ◌<>◌, Bool, true, false, Option, none, some, List, [], ◌∷◌, ◌++◌, ◌==◌, string_eq,
  contains, if◌then◌else◌, Result, ok, err, raise, Exc, ExcKind, key_error, value_error, type_error,
  attribute_error, ◌>>=◌,
}
use zabbig.Prelude.Dict.{Dict, lookup, get_or}
use zabbig.Prelude.Float.{ℤ, pos, Float}
use zabbig.Models.{MetricDef, MetricResult, Status}
use zabbig.Models.Dynamic.{
  Value, null, bool, int, str, list, nil, dict, Fields, end, items, truthy, Builtins, Casts,
}
use zabbig.Log.{Entry, eval_conditions, resolve_result_with_host}
use zabbig.Log.Collect.{chosen_host}

-- How a TLS handshake ends: `SSLCertVerificationError`, or another `SSLError` or `OSError`.
pub data Handshake : Type 0 where
  trusted untrusted unknown : Handshake

-- `urlparse(url)`
pub record Url : Type 0 where
  pub scheme : String
  pub hostname : Option String
  pub port : Option ℤ

-- The outside world of one probe: whether a TCP connection is made, the handshake, the status code and the
-- decoded body of a request with its method, URL, headers, timeout, mode and size limit (or any exception), `splitlines`, and the elapsed milliseconds as they stand
-- and cut to a whole number.
pub record Reach : Type 0 where
  pub connects : Value → ℤ → Float → Bool
  pub parse_url : Value → Result Url
  pub handshake : String → ℤ → Float → Handshake
  pub request : String → Value → Value → Float → Value → ℤ → Result (ℤ × String)
  pub split_lines : String → List String
  pub elapsed : Float
  pub whole : ℤ

module _ (c : Casts) (b : Builtins) (reach : Reach) (now : ℕ) where
  -- One `MetricResult` of a probe.
  unfoldable pub probe_result :
      MetricDef → String → String → Value → String → String → String → Option String → MetricResult
  probe_result metric metric_id key value value_type unit source host = record {
    metric_id = metric_id;
    key = key;
    value = some (c.to_str value);
    value_type = value_type;
    timestamp = now;
    collector = "probe";
    delivery = metric.delivery;
    status = Status.ok;
    unit = unit;
    tags = metric.tags;
    error = none;
    source = source;
    duration_ms = reach.elapsed;
    host_name = host;
  }

  -- The result under the sub-key `response_time_ms`, if it is wanted.
  unfoldable pub response_time : Bool → Bool → MetricDef → String → List MetricResult
  response_time false reached metric source = []
  response_time true reached metric source =
      probe_result metric (metric.id <> "._rt") (metric.key <> ".response_time_ms")
        (int (if reached then reach.whole else pos 0)) "int" "ms" source metric.host_name
      ∷ []

  unfoldable pub ssl_result : Bool → Value → MetricDef → String → List MetricResult
  ssl_result false value metric source = []
  ssl_result true value metric source =
      probe_result metric (metric.id <> "._ssl") (metric.key <> ".ssl_check") value "int" "" source
        metric.host_name
      ∷ []

  -- `params[key]`
  unfoldable pub param : String → Dict Value → Result Value
  param key params = elim (lookup key params) [ some v ↦ ok v | none ↦ raise key_error key ]

  -- `_run_tcp_probe`
  unfoldable pub run_tcp_probe : MetricDef → Result (List MetricResult)
  run_tcp_probe metric = do
    let params = metric.params
    host ← param "host" params
    raw_port ← param "port" params
    port ← c.to_int raw_port
    let success = reach.connects host port metric.timeout_seconds
    let value =
        if success
        then get_or "on_success" params (int (pos 1))
        else get_or "on_failure" params (int (pos 0))
    let source = ("tcp host=" <> c.to_str host) <> (" port=" <> c.to_str (int port))
    ok (
        probe_result metric metric.id metric.key value metric.value_type metric.unit source
          metric.host_name
        ∷ response_time (truthy (get_or "response_time_ms" params (bool false))) success metric
            source)

  -- `_ssl_cert_check`
  unfoldable pub ssl_cert_check : Handshake → Value
  ssl_cert_check trusted = int (pos 1)
  ssl_cert_check untrusted = int (pos 0)
  ssl_cert_check unknown = int (pos 2)

  abbrev pub host_of : Option String → String
  host_of none = ""
  host_of (some h) = h

  -- `parsed.port or (443 if parsed.scheme == "https" else 80)`
  abbrev pub port_of : String → Option ℤ → ℤ
  port_of scheme (some (pos ℕ.zero)) = if scheme == "https" then pos 443 else pos 80
  port_of scheme (some p) = p
  port_of scheme none = if scheme == "https" then pos 443 else pos 80

  unfoldable pub dicts_of : List Value → Result (List Fields)
  dicts_of [] = ok []
  dicts_of (dict d ∷ vs) = do rest ← dicts_of vs; ok (d ∷ rest)
  dicts_of (v ∷ vs) = raise attribute_error "object has no attribute 'get'"

  unfoldable pub conditions_of : Value → Result (List Fields)
  conditions_of (list vs) = dicts_of (items vs)
  conditions_of v = if truthy v then raise type_error "object is not iterable" else ok []

  -- The value of an entry that is there and not None.
  unfoldable pub or_default : Value → Option Entry → Entry
  or_default default none = (default, none)
  or_default default (some (null, host)) = (default, none)
  or_default default (some entry) = entry

  -- `_eval_http_status`, and the code itself without conditions.
  unfoldable pub eval_http_status : ℤ → List Fields → Value → Result Entry
  eval_http_status code [] default = ok (int code, none)
  eval_http_status code (d ∷ conditions) default = do
    entry ← eval_conditions b (d ∷ conditions) (c.to_str (int code))
    ok (or_default default entry)

  -- `match_re.search(line)`, if there is a pattern
  unfoldable pub is_wanted : Option Value → String → Result Bool
  is_wanted none line = ok true
  is_wanted (some pattern) line = do
    m ← b.search pattern line
    elim m [ some g ↦ ok true | none ↦ ok false ]

  -- `if val is not None: entries.append((val, cond_host))`
  unfoldable pub with_entry : Option Entry → List Entry → List Entry
  with_entry none entries = entries
  with_entry (some (null, host)) entries = entries
  with_entry (some entry) entries = entry ∷ entries

  -- The entry of a wanted line; without conditions it is 1.
  unfoldable pub entry_of : List Fields → String → Result (Option Entry)
  entry_of [] line = ok (some (int (pos 1), none))
  entry_of (d ∷ conditions) line = eval_conditions b (d ∷ conditions) line

  -- The loop over the lines of a body.
  unfoldable pub body_entries : Option Value → List Fields → List String → Result (List Entry)
  body_entries pattern conditions [] = ok []
  body_entries pattern conditions (line ∷ lines) = do
    wanted ← is_wanted pattern line
    entry ← (if wanted then entry_of conditions line else ok none)
    entries ← body_entries pattern conditions lines
    ok (with_entry entry entries)

  abbrev pub strategy_of : Value → String
  strategy_of (str s) = s
  strategy_of v = ""

  winner_or : Value → Option Entry → Entry
  winner_or default none = (default, none)
  winner_or default (some entry) = entry

  -- `_eval_http_body`
  unfoldable pub eval_http_body : String → Option Value → List Fields → Value → Value → Result Entry
  unfolding winner_or
  eval_http_body body pattern conditions strategy default =
      if body == "" then ok (default, none) else (do
        entries ← body_entries pattern conditions (reach.split_lines body)
        final ← resolve_result_with_host b entries (strategy_of strategy)
        ok (winner_or default final))

  -- `re.compile(match_pattern) if match_pattern else None`
  abbrev pub pattern_of : Value → Option Value
  pattern_of v = if truthy v then some v else none

  method_of : Value → Result String
  method_of (str s) = ok (c.upper s)
  method_of v = raise attribute_error "object has no attribute 'upper'"

  -- `params.get("headers") or {}`
  abbrev pub headers_of : Value → Value
  headers_of v = if truthy v then v else dict end

  -- The primary value of an HTTP probe; any exception of the request counts as not connected.
  unfoldable pub primary_value : Dict Value → Value → Result (ℤ × String) → Result Entry
  primary_value params mode (err e) = ok (get_or "default_value" params (int (pos 0)), none)
  primary_value params mode (ok (code, body)) =
      let default = get_or "default_value" params (int (pos 0)) in
      (do
        conditions ← conditions_of (get_or "conditions" params (list nil))
        elim mode [
          | str name ↦
              (if name == "http_status"
                then eval_http_status code conditions default
                else eval_http_body body (pattern_of (get_or "match" params null)) conditions
                    (get_or "result" params (str "last")) default)
          | v ↦
              eval_http_body body (pattern_of (get_or "match" params null)) conditions
                (get_or "result" params (str "last")) default
        ])

  abbrev pub connected : Result (ℤ × String) → Bool
  connected (ok r) = true
  connected (err e) = false

  -- `_run_http_probe`
  unfoldable pub run_http_probe : MetricDef → Result (List MetricResult)
  unfolding method_of
  run_http_probe metric = do
    let params = metric.params
    url ← param "url" params
    mode ← param "mode" params
    method ← method_of (get_or "method" params (str "GET"))
    max_bytes ← c.to_int (get_or "max_response_bytes" params (int (pos 65536)))
    parsed ← reach.parse_url url
    let ssl = ssl_cert_check (
        reach.handshake (host_of parsed.hostname) (port_of parsed.scheme parsed.port)
          metric.timeout_seconds)
    let response =
        reach.request method url (headers_of (get_or "headers" params null)) metric.timeout_seconds
          mode max_bytes
    primary ← primary_value params mode response
    let source = ("http mode=" <> c.to_str mode) <> (" url=" <> c.to_str url)
    ok (
        probe_result metric metric.id metric.key primary.0 metric.value_type metric.unit source
          (chosen_host b primary.1 metric.host_name)
        ∷ (response_time (truthy (get_or "response_time_ms" params (bool false)))
              (connected response) metric source
            ++ ssl_result (truthy (get_or "ssl_check" params (bool false))) ssl metric source))

  -- `collect`
  unfoldable pub collect_probe : Value → MetricDef → Result (List MetricResult)
  collect_probe (str mode) metric =
      if mode == "tcp"
      then run_tcp_probe metric
      else if contains ("http_status" ∷ "http_body" ∷ []) mode
      then run_http_probe metric
      else raise value_error "Unknown probe mode"
  collect_probe v metric = raise value_error "Unknown probe mode"

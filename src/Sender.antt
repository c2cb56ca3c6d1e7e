-- ===== src/Sender.antt =====
-- zabbig_client/src/zabbig_client/sender_manager.py: delivery to the Zabbix servers. The library
-- zabbix_utils is the parameter `Network`: what `Sender(server, port).send(items)` gives, over a state
-- that stands for everything outside the program. The chunks of a batch are sent in parallel by the
-- source and one after the other here; the counts do not depend on it.
pub mod Chunks
pub mod Delivery
pub mod Failover
use zabbig.Prelude.{
  ℕ, zero, suc, ◌+◌, String, Bool, true, false, Option, none, some, List, [], ◌∷◌, ◌++◌, map,
  length, take, drop, ltb, ◌==◌, nat_eq, string_eq, if◌then◌else◌, Result, ok, err, raise, Exc,
  ExcKind, value_error, index_error,
}
use zabbig.Prelude.State.{Action, pure, lift, ◌>>=◌}
use zabbig.Prelude.Float.{ℤ, pos, negsuc, Float, zero_float}
use zabbig.Models.{ClientConfig, MetricResult, RunSummary, Status, Delivery as DeliveryMode}

-- `ItemValue(host, key, value)`
pub record Item : Type 0 where
  pub host : String
  pub key : String
  pub value : Option String

-- One entry of `response.details`: the 1-based chunk, and how many of its items failed.
pub record Detail : Type 0 where
  pub chunk : ℕ
  pub failed : ℕ

pub record Response : Type 0 where
  pub processed : ℕ
  pub failed : ℕ
  pub total : ℕ
  pub details : List Detail

pub record Network : Type 1 where
  pub State : Type 0
  -- `Sender(server=host, port=port, chunk_size=1).send(items)`
  pub send : String → ℤ → List Item → Action State Response
  -- Whether a send outlasts send_timeout_seconds. Its thread runs on.
  pub outlasts : List Item → State → Bool
  -- `str(n)` and `str(int(ms))`
  pub show : ℕ → String
  pub show_ms : Float → String

-- `host_name or default`
unfoldable pub host_or : Option String → String → String
host_or none default = default
host_or (some h) default = if h == "" then default else h

unfoldable pub item_of : String → MetricResult → Item
unfolding host_or
item_of default_host_name r = record {
  host = host_or r.host_name default_host_name;
  key = r.key;
  value = r.value;
}

-- `results[chunk - 1]`, where chunk 0 is the last result.
has_chunk : ℕ → ℕ → Bool
has_chunk zero size = ltb 0 size
has_chunk (suc i) size = ltb i size

-- The log lines for rejected items, which look each of them up.
unfoldable pub log_rejected : List Detail → ℕ → Result (Unit {0})
unfolding has_chunk
log_rejected [] size = ok tt
log_rejected (d ∷ details) size =
    let rest = log_rejected details size in
    if d.failed == 0
    then rest
    else if has_chunk d.chunk size
    then rest
    else raise index_error "list index out of range"

-- What `_do_send` returns once a server has answered.
unfoldable pub answered : Response → ℕ → Result (ℕ × ℕ)
answered response size =
    if response.failed == 0
    then ok (response.processed, 0)
    else elim (log_rejected response.details size) [
      | ok _ ↦ ok (response.processed, response.failed)
      | err e ↦ err e
    ]

-- After one server: its answer ends the loop, and an exception goes on to the next server.
next_host {ℓ} : {S : Type ℓ} → Result Response → ℕ → S → Result (ℕ × ℕ) × S → Result (ℕ × ℕ) × S
next_host (ok response) size s rest = (answered response size, s)
next_host (err e) size s rest = rest

-- The three ways out of the `try` of `_send`.
unfoldable pub settle_send : Bool → Result (ℕ × ℕ) → ℕ → ℕ × ℕ
settle_send true counts size = (0, size)
settle_send false (ok counts) size = counts
settle_send false (err e) size = (0, size)

abbrev pub add_batch : RunSummary → ℕ × ℕ → RunSummary
add_batch summary (sent, failed) = record summary {
  sent_batch = summary.sent_batch + sent;
  sender_failures = summary.sender_failures + failed;
}

abbrev pub add_immediate : RunSummary → ℕ × ℕ → RunSummary
add_immediate summary (sent, failed) = record summary {
  sent_immediate = summary.sent_immediate + sent;
  sender_failures = summary.sender_failures + failed;
}

module _ (net : Network) (config : ClientConfig) where
  open net use {State, send, outlasts, show, show_ms}

  -- The loop of `_do_send` over the servers.
  unfoldable pub try_hosts : List String → List Item → Action State (ℕ × ℕ)
  unfolding next_host
  try_hosts [] items s = (ok (0, length items), s)
  try_hosts (host ∷ hosts) items s =
      let (response, s') = send host config.zabbix.server_port items s in
      let rest = try_hosts hosts items s' in next_host response (length items) s' rest

  unfoldable pub do_send : List MetricResult → Action State (ℕ × ℕ)
  do_send results =
      try_hosts config.zabbix.server_hosts (map (item_of config.zabbix.host_name) results)

  -- `_send`: (sent_count, failure_count)
  unfoldable pub send_results : List MetricResult → Action State (ℕ × ℕ)
  send_results results s =
      if config.runtime.dry_run
      then (ok (length results, 0), s)
      else (let late = outlasts (map (item_of config.zabbix.host_name) results) s in
          let (counts, s') = do_send results s in
          (ok (settle_send late counts (length results)), s'))

  -- All chunks, and the sums into the summary.
  unfoldable pub send_chunks : RunSummary → List (List MetricResult) → Action State RunSummary
  send_chunks summary [] = pure summary
  send_chunks summary (chunk ∷ chunks) = do
    counts ← send_results chunk
    send_chunks (add_batch summary counts) chunks

-- `range(i, stop, step)` for a positive step; fuel `stop` is enough.
unfoldable pub range_from : ℕ → ℕ → ℕ → ℕ → List ℕ
range_from zero i stop step = []
range_from (suc fuel) i stop step =
    let rest = range_from fuel (i + step) stop step in if ltb i stop then i ∷ rest else []

-- `[results[i:i + max_size] for i in range(0, len(results), max_size)]`. A range with step 0 is
-- refused, and one with a negative step is empty here.
unfoldable pub chunks {ℓ} : {A : Type ℓ} → ℤ → List A → Result (List (List A))
chunks (pos zero) results = raise value_error "range() arg 3 must not be zero"
chunks (pos (suc n)) results =
    let size = length results in
    ok (map (λ i. take (suc n) (drop i results)) (range_from size 0 size (suc n)))
chunks (negsuc n) results = ok []

-- One self-monitoring item.
abbrev pub self_result : ℕ → String → String → String → MetricResult
self_result now metric_id key value = record {
  metric_id = metric_id;
  key = key;
  value = some value;
  value_type = "float";
  timestamp = now;
  collector = "self";
  delivery = DeliveryMode.batch;
  status = Status.ok;
  unit = "";
  tags = [];
  error = none;
  source = "";
  duration_ms = zero_float;
  host_name = none;
}

module _ (net : Network) (config : ClientConfig) where
  open net use {State, send, outlasts, show, show_ms}

  unfoldable pub send_batch : List MetricResult → RunSummary → Action State RunSummary
  send_batch [] summary = pure summary
  send_batch (r ∷ results) summary = do
    parts ← lift (chunks config.batching.batch_send_max_size (r ∷ results))
    send_chunks net config summary parts

  unfoldable pub send_immediate : List MetricResult → RunSummary → Action State RunSummary
  send_immediate [] summary = pure summary
  send_immediate (r ∷ results) summary = do
    counts ← send_results net config (r ∷ results)
    pure (add_immediate summary counts)

  -- The items of `send_self_metrics` at the time `now`.
  unfoldable pub self_results : ℕ → RunSummary → List MetricResult
  self_results now s =
      self_result now "self_zabbig_client_run_success" "zabbig.client.run.success"
        (if s.success then "1" else "0")
      ∷ self_result now "self_zabbig_client_collectors_total" "zabbig.client.collectors.total"
          (show s.enabled)
      ∷ self_result now "self_zabbig_client_collectors_failed" "zabbig.client.collectors.failed"
          (show (s.collected_failed + s.collected_timeout))
      ∷ self_result now "self_zabbig_client_duration_ms" "zabbig.client.duration_ms"
          (show_ms s.duration_ms)
      ∷ self_result now "self_zabbig_client_metrics_sent" "zabbig.client.metrics.sent"
          (show (s.sent_batch + s.sent_immediate))
      ∷ []

  unfoldable pub send_self_metrics : ℕ → RunSummary → Action State (ℕ × ℕ)
  send_self_metrics now s = send_results net config (self_results now s)

-- ===== src/Network.antt =====
-- zabbig_client/src/zabbig_client/collectors/network.py: the counters of /proc/net/dev, read once or twice,
-- and those of /proc/net/sockstat. What the reads give, `int` of a text, and the texts of the values are the
-- parameter `Proc`. Counters are not negative.
pub mod Words
pub mod Printed
use Prim.Native.Char.{Char, code}
use zabbig.Prelude.{
  ℕ, zero, suc, ◌+◌, ◌-◌, String, Bool, true, false, not, Option, none, some, List, [], ◌∷◌,
  get_elem?, drop, ◌==◌, nat_eq, string_eq, if◌then◌else◌, Result, ok, err, raise, ExcKind,
  key_error, value_error, index_error, runtime_error, contains, ◌>>=◌,
}
use zabbig.Prelude.Affix.{is_space, strip, starts_with}
use zabbig.Prelude.Float.{Float}
use zabbig.Models.{MetricDef, MetricResult, Status}
use zabbig.Prelude.Dict.{Dict, lookup, insert}

-- Whether a text goes on with a character of a word.
unfoldable pub continues : String → Bool
continues String.[] = false
continues (String.◌∷◌ c s) = not (is_space (code c))

abbrev pub attach : Char → Bool → List String → List String
attach c true (w ∷ ws) = String.◌∷◌ c w ∷ ws
attach c _ ws = String.◌∷◌ c String.[] ∷ ws

-- `s.split()`
unfoldable pub words : String → List String
words String.[] = []
words (String.◌∷◌ c s) =
    let rest = words s in if is_space (code c) then rest else attach c (continues s) rest

-- `line.partition(":")`
unfoldable pub before_colon : String → String
before_colon String.[] = String.[]
before_colon (String.◌∷◌ c s) =
    let rest = before_colon s in if code c == b':' then String.[] else String.◌∷◌ c rest

unfoldable pub after_colon : String → String
after_colon String.[] = String.[]
after_colon (String.◌∷◌ c s) = let rest = after_colon s in if code c == b':' then s else rest

-- `_COL[mode]`
unfoldable pub column_of : String → Result ℕ
column_of mode =
    if mode == "rx_bytes"
    then ok 0
    else if mode == "rx_packets"
    then ok 1
    else if mode == "rx_errors"
    then ok 2
    else if mode == "rx_dropped"
    then ok 3
    else if mode == "tx_bytes"
    then ok 8
    else if mode == "tx_packets"
    then ok 9
    else if mode == "tx_errors"
    then ok 10
    else if mode == "tx_dropped"
    then ok 11
    else raise key_error mode

module _ (to_int : String → Result ℕ) where
  -- `[int(x) for x in …]`
  unfoldable pub parse_counters : List String → Result (List ℕ)
  parse_counters [] = ok []
  parse_counters (w ∷ ws) = do n ← to_int w; counters ← parse_counters ws; ok (n ∷ counters)

  unfoldable pub parse_interfaces : List String → Dict (List ℕ) → Result (Dict (List ℕ))
  parse_interfaces [] result = ok result
  parse_interfaces (line ∷ lines) result = do
    counters ← parse_counters (words (after_colon line))
    parse_interfaces lines (insert (strip (before_colon line)) counters result)

  -- `_parse_net_dev`, of the lines of the file
  unfoldable pub parse_net_dev : List String → Result (Dict (List ℕ))
  parse_net_dev lines = parse_interfaces (drop 2 lines) []

-- `counters[col]`
unfoldable pub counter_at : ℕ → List ℕ → Result ℕ
counter_at col counters = elim (get_elem? counters col) [
  | some n ↦ ok n
  | none ↦ raise index_error "list index out of range"
]

-- The sum over the interfaces other than the loopback.
unfoldable pub sum_counters : ℕ → Dict (List ℕ) → Result ℕ
sum_counters col [] = ok 0
sum_counters col ((name, counters) ∷ iface_data) =
    let rest = sum_counters col iface_data in
    if name == "lo" then rest else (do n ← counter_at col counters; others ← rest; ok (n + others))

of_interface : ℕ → Option (List ℕ) → Result ℕ
of_interface col (some counters) = counter_at col counters
of_interface col none = raise value_error "Network interface not found in /proc/net/dev"

-- `_get_counters`
unfoldable pub get_counters : Dict (List ℕ) → String → ℕ → Result ℕ
unfolding of_interface
get_counters iface_data interface col =
    if interface == "total"
    then sum_counters col iface_data
    else of_interface col (lookup interface iface_data)

-- `_net_counter`
unfoldable pub net_counter : (String → Result ℕ) → String → String → List String → Result ℕ
net_counter to_int interface mode lines = do
  col ← column_of mode
  iface_data ← parse_net_dev to_int lines
  get_counters iface_data interface col

-- `_net_rate`, with the mode without `_per_sec`: `max(0, v2 - v1)` of the two reads, before it is rounded.
unfoldable pub net_rate :
    (String → Result ℕ) → String → String → List String → List String → Result ℕ
net_rate to_int interface mode lines1 lines2 = do
  col ← column_of mode
  data1 ← parse_net_dev to_int lines1
  data2 ← parse_net_dev to_int lines2
  v1 ← get_counters data1 interface col
  v2 ← get_counters data2 interface col
  ok (v2 - v1)

-- `mapping[mode]` of the socket counters
unfoldable pub socket_field : String → Result (String × String)
socket_field mode =
    if mode == "tcp_inuse"
    then ok ("TCP:", "inuse")
    else if mode == "tcp_timewait"
    then ok ("TCP:", "tw")
    else if mode == "tcp_orphans"
    then ok ("TCP:", "orphan")
    else if mode == "udp_inuse"
    then ok ("UDP:", "inuse")
    else raise key_error mode

-- The value behind a key: the parts after the first are keys and values in turn.
unfoldable pub value_behind : String → List String → Option String
value_behind field (key ∷ value ∷ parts) =
    let rest = value_behind field parts in if key == field then some value else rest
value_behind field _ = none

unfoldable pub find_socket_field : String → String → List String → Result String
find_socket_field proto field [] = raise runtime_error "Field not found"
find_socket_field proto field (line ∷ lines) =
    let rest = find_socket_field proto field lines in
    let here = value_behind field (drop 1 (words line)) in
    if starts_with proto line then elim here [ some value ↦ ok value | none ↦ rest ] else rest

-- `_sockstat`, of the lines of the file
unfoldable pub sockstat : (String → Result ℕ) → String → List String → Result ℕ
sockstat to_int mode lines = do
  target ← socket_field mode
  value ← find_socket_field target.0 target.1 lines
  to_int value

abbrev pub rate_modes : List String
rate_modes = "rx_bytes_per_sec" ∷ "tx_bytes_per_sec" ∷ []

abbrev pub dev_modes : List String
dev_modes =
    "rx_bytes_per_sec" ∷ "tx_bytes_per_sec" ∷ "rx_bytes" ∷ "tx_bytes" ∷ "rx_packets" ∷ "tx_packets"
    ∷ "rx_errors" ∷ "tx_errors" ∷ "rx_dropped" ∷ "tx_dropped" ∷ []

abbrev pub socket_modes : List String
socket_modes = "tcp_inuse" ∷ "tcp_timewait" ∷ "tcp_orphans" ∷ "udp_inuse" ∷ []

-- The reads of one collection; `int`; `mode.replace("_per_sec", "")`; the text of a counter, and of
-- `round(delta / 1.0, 2)`.
pub record Proc : Type 0 where
  pub net_dev : Result (List String)
  pub net_dev_later : Result (List String)
  pub net_sockstat : Result (List String)
  pub to_int : String → Result ℕ
  pub without_rate : String → String
  pub counter_text : ℕ → String
  pub rate_text : ℕ → String

-- The value of `collect`, as a text.
unfoldable pub network_value : Proc → String → String → Result String
network_value proc interface mode =
    if contains rate_modes mode
    then (do
      lines1 ← proc.net_dev
      lines2 ← proc.net_dev_later
      delta ← net_rate proc.to_int interface (proc.without_rate mode) lines1 lines2
      ok (proc.rate_text delta))
    else if contains dev_modes mode
    then (do
      lines ← proc.net_dev
      n ← net_counter proc.to_int interface mode lines
      ok (proc.counter_text n))
    else if contains socket_modes mode
    then (do
      lines ← proc.net_sockstat
      n ← sockstat proc.to_int mode lines
      ok (proc.counter_text n))
    else raise value_error "Unknown network collector mode"

-- The `MetricResult` of `collect`, at a time, with its source and its duration.
unfoldable pub collect_network :
    Proc → ℕ → Float → String → MetricDef → String → String → Result MetricResult
collect_network proc now duration source metric interface mode = do
  value ← network_value proc interface mode
  ok (record {
    metric_id = metric.id;
    key = metric.key;
    value = some value;
    value_type = metric.value_type;
    timestamp = now;
    collector = "network";
    delivery = metric.delivery;
    status = Status.ok;
    unit = metric.unit;
    tags = metric.tags;
    error = none;
    source = source;
    duration_ms = duration;
    host_name = metric.host_name;
  })

-- ===== src/Host/Cpu.antt =====
-- zabbig_client/src/zabbig_client/collectors/cpu.py: the jiffies of /proc/stat, read twice, and the
-- averages of /proc/loadavg and /proc/uptime. What the reads give, `float` and `int` of a text, and the
-- arithmetic on floats are the parameter `CpuReads`. Counters are not negative.
pub mod Percent
use zabbig.Prelude.{
  ℕ, ◌+◌, String, Bool, ◌||◌, Option, none, some, List, [], ◌∷◌, get_elem?, take, drop, ltb, leb,
  length, ◌-◌, ◌==◌, string_eq, if◌then◌else◌, Result, ok, err, raise, index_error, key_error,
  runtime_error, value_error, ◌>>=◌,
}
use zabbig.Prelude.Float.{ℤ, Float, zero_float}
use zabbig.Models.{MetricDef, MetricResult}
use zabbig.Models.Dynamic.{Value}
use zabbig.Network.{words, parse_counters}
use zabbig.Host.{host_param, is_text, diff, host_result}

-- `xs[i]`
unfoldable pub item_at {ℓ} : {A : Type ℓ} → List A → ℕ → Result A
item_at xs i = elim (get_elem? xs i) [
  | some x ↦ ok x
  | none ↦ raise index_error "list index out of range"
]

-- `sum(values)`
unfoldable pub sum : List ℕ → ℕ
sum [] = 0
sum (n ∷ values) = n + sum values

-- `values[4] if len(values) > 4 else 0`
unfoldable pub iowait : List ℕ → ℕ
iowait values = elim (get_elem? values 4) [ some n ↦ n | none ↦ 0 ]

-- The sum of the counters, and the idle ones.
unfoldable pub jiffies : List ℕ → Result (ℕ × ℕ)
jiffies values = do idle ← item_at values 3; ok (sum values, idle + iowait values)

-- `_read_proc_stat_cpu`, of the first line of the file
unfoldable pub read_proc_stat_cpu : (String → Result ℕ) → String → Result (ℕ × ℕ)
read_proc_stat_cpu to_int line = do
  name ← item_at (words line) 0
  values ←
      (if name == "cpu"
        then parse_counters to_int (take 8 (drop 1 (words line)))
        else raise runtime_error "Unexpected /proc/stat format")
  jiffies values

-- The end of `_cpu_percent`: `percent d n` is `round((1.0 - d / n) * 100.0, 2)`.
unfoldable pub busy_percent : (ℤ → ℕ → Float) → ℕ × ℕ → ℕ × ℕ → Float
busy_percent percent (t1, i1) (t2, i2) =
    if leb t2 t1 then zero_float else percent (diff i2 i1) (t2 - t1)

-- The first line of `{proc_root}/stat` and what it is 0.2 seconds later, the texts of the other two
-- files, `int` and `float` of a text, the arithmetic, `str` of a float, and f-strings of a parameter.
pub record CpuReads : Type 0 where
  pub stat : Value → Result String
  pub stat_later : Value → Result String
  pub loadavg : Value → Result String
  pub uptime : Value → Result String
  pub to_int : String → Result ℕ
  pub to_float : String → Result Float
  pub percent : ℤ → ℕ → Float
  pub show_float : Float → String
  pub source : Value → Value → String

-- `_cpu_percent`
unfoldable pub cpu_percent : CpuReads → Value → Result Float
cpu_percent reads proc_root = do
  line1 ← reads.stat proc_root
  first ← read_proc_stat_cpu reads.to_int line1
  line2 ← reads.stat_later proc_root
  second ← read_proc_stat_cpu reads.to_int line2
  ok (busy_percent reads.percent first second)

-- `mapping[mode]`
unfoldable pub load_column : Value → Result ℕ
load_column mode =
    if is_text mode "load1"
    then ok 0
    else if is_text mode "load5"
    then ok 1
    else if is_text mode "load15"
    then ok 2
    else raise key_error "mode"

-- `_load_avg`
unfoldable pub load_avg : CpuReads → Value → Value → Result Float
load_avg reads mode proc_root = do
  text ← reads.loadavg proc_root
  col ← load_column mode
  word ← item_at (words text) col
  reads.to_float word

-- `_uptime_seconds`
unfoldable pub uptime_seconds : CpuReads → Value → Result Float
uptime_seconds reads proc_root = do
  text ← reads.uptime proc_root
  word ← item_at (words text) 0
  reads.to_float word

unfoldable pub cpu_value : CpuReads → Value → Value → Result Float
cpu_value reads mode proc_root =
    if is_text mode "percent"
    then cpu_percent reads proc_root
    else if is_text mode "load1" || is_text mode "load5" || is_text mode "load15"
    then load_avg reads mode proc_root
    else if is_text mode "uptime"
    then uptime_seconds reads proc_root
    else raise value_error "Unknown cpu collector mode"

-- `CpuCollector.collect`, at a time and with its duration
unfoldable pub collect_cpu : CpuReads → ℕ → Float → MetricDef → Result MetricResult
collect_cpu reads now duration metric = do
  let mode = host_param "mode" "percent" metric
  let proc_root = host_param "proc_root" "/proc" metric
  value ← cpu_value reads mode proc_root
  ok (host_result "cpu" metric now duration (reads.source proc_root mode) (reads.show_float value))

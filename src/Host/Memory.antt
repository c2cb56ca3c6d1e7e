-- ===== src/Host/Memory.antt =====
-- zabbig_client/src/zabbig_client/collectors/memory.py: the table of /proc/meminfo. What the read gives,
-- `int` of a text, the arithmetic on floats and the texts of the values are the parameter `MemoryReads`.
-- Sizes are not negative; a difference of two sizes can be.
use zabbig.Prelude.{
  ℕ, ◌*◌, ◌==◌, nat_eq, String, none, some, List, [], ◌∷◌, if◌then◌else◌, Result, ok, err, raise,
  key_error, value_error, ◌>>=◌,
}
use zabbig.Prelude.Affix.{rstrip}
use zabbig.Prelude.Dict.{Dict, lookup, get_or, insert}
use zabbig.Prelude.Float.{ℤ, Float, zero_float}
use zabbig.Models.{MetricDef, MetricResult}
use zabbig.Models.Dynamic.{Value}
use zabbig.Network.{words}
use zabbig.Host.{host_param, is_text, diff, host_result}

-- `try: result[key] = int(…)`, where a ValueError leaves the table as it is.
add_size : String → Result ℕ → Dict ℕ → Result (Dict ℕ)
add_size key (ok n) result = ok (insert key n result)
add_size key (err e) result = elim e.kind [ value_error ↦ ok result | _ ↦ err e ]

module _ (to_int : String → Result ℕ) where
  -- One line: a key with a colon, and a number.
  unfoldable pub add_line : List String → Dict ℕ → Result (Dict ℕ)
  unfolding add_size
  add_line (key ∷ value ∷ parts) result =
      add_size (rstrip (λ c. c == b':') key) (to_int value) result
  add_line parts result = ok result

  unfoldable pub add_lines : List String → Dict ℕ → Result (Dict ℕ)
  add_lines [] result = ok result
  add_lines (line ∷ lines) result = do more ← add_line (words line) result; add_lines lines more

  -- `_read_meminfo`, of the lines of the file
  unfoldable pub read_meminfo : List String → Result (Dict ℕ)
  read_meminfo lines = add_lines lines []

-- `percent d n` is `round(d / n * 100.0, 2)`.
unfoldable pub used_of : (ℤ → ℕ → Float) → ℕ → ℕ → Float
used_of percent total available =
    if total == 0 then zero_float else percent (diff total available) total

-- `_mem_used_percent`
unfoldable pub mem_used_percent : (ℤ → ℕ → Float) → Dict ℕ → Float
mem_used_percent percent info =
    used_of percent (get_or "MemTotal" info 0)
      (get_or "MemAvailable" info (get_or "MemFree" info 0))

-- `_swap_used_percent`
unfoldable pub swap_used_percent : (ℤ → ℕ → Float) → Dict ℕ → Float
swap_used_percent percent info =
    used_of percent (get_or "SwapTotal" info 0) (get_or "SwapFree" info 0)

-- `info["MemAvailable"] * 1024`
unfoldable pub available_bytes : Dict ℕ → Result ℕ
available_bytes info = elim (lookup "MemAvailable" info) [
  | some n ↦ ok (n * 1024)
  | none ↦ raise key_error "MemAvailable"
]

-- The lines of `{proc_root}/meminfo`, `int` of a text, the arithmetic, `str`, and the source.
pub record MemoryReads : Type 0 where
  pub meminfo : Value → Result (List String)
  pub to_int : String → Result ℕ
  pub percent : ℤ → ℕ → Float
  pub show_float : Float → String
  pub show_int : ℕ → String
  pub source : Value → Value → String

-- `str(value)`
unfoldable pub memory_value : MemoryReads → Value → Dict ℕ → Result String
memory_value reads mode info =
    if is_text mode "used_percent"
    then ok (reads.show_float (mem_used_percent reads.percent info))
    else if is_text mode "available_bytes"
    then (do n ← available_bytes info; ok (reads.show_int n))
    else if is_text mode "swap_used_percent"
    then ok (reads.show_float (swap_used_percent reads.percent info))
    else raise value_error "Unknown memory collector mode"

-- `MemoryCollector.collect`, at a time and with its duration
unfoldable pub collect_memory : MemoryReads → ℕ → Float → MetricDef → Result MetricResult
collect_memory reads now duration metric = do
  let mode = host_param "mode" "used_percent" metric
  let proc_root = host_param "proc_root" "/proc" metric
  lines ← reads.meminfo proc_root
  info ← read_meminfo reads.to_int lines
  value ← memory_value reads mode info
  ok (host_result "memory" metric now duration (reads.source proc_root mode) value)

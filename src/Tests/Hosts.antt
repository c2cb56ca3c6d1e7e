-- ===== src/Tests/Hosts.antt =====
-- The collectors of the host on concrete files: a number is as many strokes, and one more.
use native.Mathlib.Decide.{ℕ_discrete}
use zabbig.Prelude.{
  ℕ, ◌-◌, ◌≤◌, ◌≡◌, ◌⊎◌, refl, String, true, List, [], ◌∷◌, map, length, nat_eq, string_eq, Result,
  ok, raise, value_error, arith,
}
use zabbig.Prelude.Text.{codes}
use zabbig.Prelude.Affix.{is_space}
use zabbig.Prelude.Float.{pos, finite, zero_float}
use zabbig.Models.Dynamic.{Value, str}
use zabbig.Network.{words, continues, parse_counters}
use zabbig.Host.Cpu.{CpuReads, jiffies, cpu_percent}
use zabbig.Host.Cpu.Percent.{none_left, more, IsCpuLine, IsShare, cpu_percent-IsShare}
use zabbig.Host.Service.{Services, exited, names, line}
use zabbig.Host.Service.Cache.{process_checks, is_running, process_checks-is_running}

abbrev strokes_of : String → Result ℕ
strokes_of s = ok (length (codes s) - 1)

abbrev first_line : String
first_line = "cpu 111 1 11 11111"

abbrev second_line : String
second_line = "cpu 1111 1 111 1111111"

abbrev cpu_reads : CpuReads
cpu_reads = record {
  stat = λ root. ok first_line;
  stat_later = λ root. ok second_line;
  loadavg = λ root. ok "";
  uptime = λ root. ok "";
  to_int = strokes_of;
  to_float = λ s. raise value_error "";
  percent = λ d n. finite d;
  show_float = λ x. "";
  source = λ root mode. "";
}

first_line-IsCpuLine : IsCpuLine strokes_of first_line (2 ∷ 0 ∷ 1 ∷ 4 ∷ [])
unfolding words continues is_space parse_counters nat_eq ℕ_discrete
first_line-IsCpuLine = record { name = refl; counters = refl }

second_line-IsCpuLine : IsCpuLine strokes_of second_line (3 ∷ 0 ∷ 2 ∷ 6 ∷ [])
unfolding words continues is_space parse_counters nat_eq ℕ_discrete
second_line-IsCpuLine = record { name = refl; counters = refl }

cpu_percent-IsShare_example :
    (before after : ℕ × ℕ) × (jiffies (2 ∷ 0 ∷ 1 ∷ 4 ∷ []) ≡ ok before)
    × (jiffies (3 ∷ 0 ∷ 2 ∷ 6 ∷ []) ≡ ok after)
    × ((k : ℕ) × (n : ℕ) × IsShare k n before after
        × (((n ≡ 0) × (cpu_percent cpu_reads (str "/proc") ≡ ok zero_float))
            ⊎ ((1 ≤ n) × (cpu_percent cpu_reads (str "/proc") ≡ ok (finite (pos k))))))
cpu_percent-IsShare_example =
    cpu_percent-IsShare cpu_reads (str "/proc") first_line second_line (2 ∷ 0 ∷ 1 ∷ 4 ∷ [])
      (3 ∷ 0 ∷ 2 ∷ 6 ∷ []) refl refl first_line-IsCpuLine second_line-IsCpuLine
      (more (omega arith) (more (omega arith) (more (omega arith) (more (omega arith) none_left))))
      (omega arith)

-- Two processes, of which the second cannot be read; a pattern finds texts that are longer than it.
abbrev services : Services
services = record {
  systemctl = λ name. exited 0;
  compile = λ pattern. ok (λ text. true);
  scandir = λ root. names ("1" ∷ "self" ∷ "7" ∷ []);
  is_digit_name = λ name. true;
  read_cmdline = λ root name. line "init";
  root_of = λ root. "/proc";
  show_int = λ n. "";
  systemd_source = λ name. "";
  scan_source = λ pattern root. "";
}

abbrev two_checks : List (Value × String)
two_checks = (str "init", "/proc") ∷ (str "nginx", "/proc") ∷ []

process_checks-is_running_example :
    (process_checks services two_checks []).0
    ≡ map (λ check. is_running services check.0 check.1) two_checks
process_checks-is_running_example = process_checks-is_running services two_checks

-- ===== src/Scheduler.antt =====
-- zabbig_client/src/zabbig_client/scheduler.py: the four constraints that decide whether a metric
-- is collected in this invocation. The wall clock is an argument. A reason for skipping is data;
-- the source renders it as text for the log. The time fields are texts of four ASCII digits, as the
-- loader leaves them; for any other text `int` raises a ValueError.
pub mod Guards
pub mod Cadence
use zabbig.Prelude.{
  ℕ, zero, suc, ◌+◌, ◌-◌, ◌*◌, ◌%◌, String, Bool, true, false, not, ◌&&◌, Option, none, some, ltb,
  leb, ◌==◌, nat_eq, string_eq, if◌then◌else◌, take, drop, Result, ok, err, raise, ExcKind,
  value_error, ◌>>=◌,
}
use zabbig.Prelude.Text.{codes, int_of}
use zabbig.Prelude.Float.{ℤ, pos, negsuc}
use zabbig.Models.{MetricDef, Frequency, every, word}

-- A piece of text as a number, or the exception of `int`.
unfoldable pub int_or_raise : Option ℕ → Result ℕ
int_or_raise (some n) = ok n
int_or_raise none = raise value_error "invalid literal for int() with base 10"

-- Minutes since midnight.
unfoldable pub parse_hhmm : String → Result ℕ
unfolding int_or_raise int_of
parse_hhmm value = do
  hours ← int_or_raise (int_of (take 2 (codes value)))
  minutes ← int_or_raise (int_of (drop 2 (codes value)))
  ok (hours * 60 + minutes)

-- `current_minutes` at a local time.
unfoldable pub current_minutes : ℕ → ℕ → ℕ
current_minutes hour minute = hour * 60 + minute

pub data Reason : Type 0 where
  before_window after_window : String → ℕ → Reason
  quota_used : ℕ → ℕ → Reason
  not_even not_odd : ℕ → Reason
  not_nth : ℕ → ℕ → Reason

-- (True, None) is `execute`, and (False, reason) is `skip reason`.
pub data Decision : Type 0 where
  execute : Decision
  skip : Reason → Decision

unfoldable pub window_from : Option String → ℕ → Result Decision
window_from none now = ok execute
window_from (some t) now = do
  from_min ← parse_hhmm t
  ok (if ltb now from_min then skip (before_window t now) else execute)

unfoldable pub window_till : Option String → ℕ → Result Decision
window_till none now = ok execute
window_till (some t) now = do
  till_min ← parse_hhmm t
  ok (if leb till_min now then skip (after_window t now) else execute)

unfoldable pub quota : Option ℤ → ℕ → Decision
quota (some (pos max_exec)) execution_count =
    if ltb 0 max_exec && leb max_exec execution_count
    then skip (quota_used max_exec execution_count)
    else execute
quota _ execution_count = execute

-- `(run_counter - 1) % freq` of Python, whose result is never negative.
unfoldable pub cadence : Option Frequency → ℕ → Decision
cadence none run_counter = execute
cadence (some (word freq)) run_counter =
    if freq == "even" && not (run_counter % 2 == 0)
    then skip (not_even run_counter)
    else if freq == "odd" && not (run_counter % 2 == 1)
    then skip (not_odd run_counter)
    else execute
cadence (some (every (pos freq))) run_counter =
    if ltb 1 freq && not ((run_counter + freq - 1) % freq == 0)
    then skip (not_nth freq run_counter)
    else execute
cadence (some (every (negsuc _))) run_counter = execute

-- The next test of an `if … return False` ladder.
abbrev pub otherwise : Decision → Result Decision → Result Decision
otherwise execute next = next
otherwise (skip reason) next = ok (skip reason)

unfoldable pub should_execute :
    (metric : MetricDef) (now run_counter execution_count : ℕ) (dry_run : Bool) → Result Decision
should_execute metric now run_counter execution_count true = ok execute
should_execute metric now run_counter execution_count false = do
  opened ← window_from metric.time_window_from now
  otherwise opened (do
    closed ← window_till metric.time_window_till now
    otherwise closed (
        otherwise (quota metric.max_executions_per_day execution_count)
          (ok (cadence metric.run_frequency run_counter))))

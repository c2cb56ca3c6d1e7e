-- ===== src/StateManager.antt =====
-- zabbig_client/src/zabbig_client/state_manager.py: last_run.json and schedule.json in the state
-- directory. The directory is a `Disk`: what each file holds, and whether directories can be made
-- and files written. A file is replaced whole, by a rename, so a failed write leaves the old one.
pub mod Failures
use zabbig.Prelude.{
  ℕ, ◌+◌, String, Bool, true, false, Option, none, some, List, [], Result, ok, err, raise, Exc,
  ExcKind, ◌≡◌, sym, ok-injective, ok-ne-err, os_error, if◌then◌else◌,
}
use zabbig.Prelude.State.{Action, pure, and_then, ◌>>=◌}
use zabbig.Prelude.Dict.{Dict}
use zabbig.Prelude.Float.{Float}
use zabbig.Models.{ClientConfig, RunSummary}

-- A file that is not there; one that is no JSON; one whose reading raises another exception, as a
-- PermissionError or a UnicodeDecodeError; and one that holds a value.
pub data File (A : Type 0) : Type 0 where
  missing corrupt : File A
  unreadable : Exc → File A
  holds : A → File A

-- last_run.json
pub record RunState : Type 0 where
  pub last_run_ts : ℕ
  pub success : Bool
  pub duration_ms : Float
  pub metrics_sent : ℕ
  pub collectors_failed : ℕ
  pub sender_failures : ℕ
  pub consecutive_failures : ℕ

-- schedule.json, with `{}` for an empty one: no date, run counter 0, no metrics. The value of a
-- metric is its "execution_count".
pub record ScheduleState : Type 0 where
  pub date : Option String
  pub run_counter : ℕ
  pub metrics : Dict ℕ

abbrev pub no_schedule : ScheduleState
no_schedule = record { date = none; run_counter = 0; metrics = [] }

pub record Disk : Type 0 where
  pub last_run : File RunState
  pub schedule : File ScheduleState
  pub dir_ok : Bool
  pub write_ok : Bool

-- `_load_raw`, where `{}` is `none`. Only a FileNotFoundError and a JSONDecodeError are caught.
unfoldable pub load_raw : {A : Type 0} → File A → Result (Option A)
load_raw (holds a) = ok (some a)
load_raw missing = ok none
load_raw corrupt = ok none
load_raw (unreadable e) = err e

-- `existing.get("consecutive_failures", 0)`
unfoldable pub failures_before : Option RunState → ℕ
failures_before (some state) = state.consecutive_failures
failures_before none = 0

-- `os.makedirs(state_dir, exist_ok=True)`
abbrev pub make_dir : Action Disk (Unit {0})
make_dir disk =
    (if disk.dir_ok then ok tt else raise os_error "cannot create the state directory", disk)

-- The state that `save_state` writes at the time `now`; `rounded` is `round(duration_ms, 1)`.
unfoldable pub run_state : ℕ → Float → RunSummary → Option RunState → RunState
run_state now rounded summary existing = record {
  last_run_ts = now;
  success = summary.success;
  duration_ms = rounded;
  metrics_sent = summary.sent_batch + summary.sent_immediate;
  collectors_failed = summary.collected_failed + summary.collected_timeout;
  sender_failures = summary.sender_failures;
  consecutive_failures = if summary.success then 0 else failures_before existing + 1;
}

-- An OSError of the write is only logged.
unfoldable pub write_run_state : RunState → Disk → Disk
write_run_state state disk = if disk.write_ok then record disk { last_run = holds state } else disk

unfoldable pub save_state : ClientConfig → ℕ → Float → RunSummary → Action Disk (Unit {0})
unfolding write_run_state
save_state config now rounded summary disk =
    if config.state.enabled
    then (make_dir >>= λ _ d.
          and_then (load_raw d.last_run)
            (λ existing d'. (ok tt, write_run_state (run_state now rounded summary existing) d')) d)
        disk
    else (ok tt, disk)

unfoldable pub load_state : ClientConfig → Disk → Result (Option RunState)
load_state config disk = if config.state.enabled then load_raw disk.last_run else ok none

abbrev or_no_schedule : Result (Option ScheduleState) → Result ScheduleState
or_no_schedule (ok (some state)) = ok state
or_no_schedule (ok none) = ok no_schedule
or_no_schedule (err e) = err e

unfoldable pub load_schedule_state : Disk → Result ScheduleState
load_schedule_state disk = or_no_schedule (load_raw disk.schedule)

-- What schedule.json says, where it can be read.
abbrev pub schedule_of : File ScheduleState → ScheduleState
schedule_of (holds state) = state
schedule_of missing = no_schedule
schedule_of corrupt = no_schedule
schedule_of (unreadable e) = no_schedule

-- What is loaded is what the file says.
pub load_schedule_state-schedule_of :
    (disk : Disk) (state : ScheduleState)
    → load_schedule_state disk ≡ ok state
    → schedule_of disk.schedule ≡ state
unfolding load_schedule_state load_raw
load_schedule_state-schedule_of disk state e = by_file disk.schedule e
  where
    by_file :
        (file : File ScheduleState)
        → or_no_schedule (load_raw file) ≡ ok state
        → schedule_of file ≡ state
    by_file (holds s) e = ok-injective s state e
    by_file missing e = ok-injective _ state e
    by_file corrupt e = ok-injective _ state e
    by_file (unreadable x) e = absurd (ok-ne-err state x (sym e))

unfoldable pub write_schedule : ScheduleState → Disk → Disk
write_schedule state disk = if disk.write_ok then record disk { schedule = holds state } else disk

unfoldable pub save_schedule_state : ScheduleState → Action Disk (Unit {0})
unfolding write_schedule
save_schedule_state state = make_dir >>= λ _ d. (ok tt, write_schedule state d)

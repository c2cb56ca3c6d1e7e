-- ===== src/Main/Ledger.antt =====
-- main.py and state_manager.py: schedule.json as a ledger of the day, which counts the runs and the
-- executions of every metric id, and the locked part of `run` as one entry in it.
pub mod Refines
pub mod Chosen
pub mod Days
use zabbig.Prelude.{
  ℕ, ◌+◌, ◌≡◌, refl, sym, ap, ◌∙◌, String, Bool, true, false, Option, none, some, List, [], ◌∷◌,
  map, keep, ◌==◌, string_eq, if◌then◌else◌, Result, ok, err, ok-injective, Bool-cases, inl, inr,
  arith,
}
use mathlib.Core.Path.{subst, fun_ext}
use zabbig.Prelude.State.{Action, and_then, pure, ◌>>=◌}
use zabbig.Prelude.Dict.{get_or, lookup}
use zabbig.Models.{ClientConfig, MetricDef, RunSummary}
use zabbig.Scheduler.{Decision, execute, skip, should_execute}
use zabbig.Sender.{Network}
use zabbig.Locking.{LockFile, acquire, release}
use zabbig.StateManager.{
  Disk, ScheduleState, schedule_of, holds, load_raw, load_schedule_state, save_schedule_state,
  save_state,
}
use zabbig.Registry.{load_collectors_for}
use zabbig.Main.{begin_run, select, count_executions, add_decision, run_with_timeout}
use zabbig.Main.Schedule.{times, count_executions-times, joined}
use zabbig.Main.Quota.{save_state-schedule}
use zabbig.Main.Run.{
  Inputs, Machine, on_disk, on_net, save, save_schedule, nothing_scheduled, run_scheduled,
  run_chosen, under_lock, locked,
}

-- The date of the last run, the runs of that day, and the executions of that day by metric id.
pub record Ledger : Type 0 where
  pub date : Option String
  pub runs : ℕ
  pub executions : String → ℕ

abbrev pub ledger_of : ScheduleState → Ledger
ledger_of state = record {
  date = state.date;
  runs = state.run_counter;
  executions = λ j. get_or j state.metrics 0;
}

-- What schedule.json on the disk says, where it can be read; nothing where it cannot.
abbrev pub view : Disk → Ledger
view disk = ledger_of (schedule_of disk.schedule)

abbrev pub opened_on : String → Option String → ℕ → (String → ℕ) → Ledger
opened_on today none runs executions = record { date = some today; runs = 1; executions = λ j. 0 }
opened_on today (some date) runs executions =
    if date == today
    then record { date = some date; runs = runs + 1; executions = executions }
    else record { date = some today; runs = 1; executions = λ j. 0 }

-- The ledger at the start of a run: one more run of the same day, or the first one of a new day.
abbrev pub opened_today : String → Ledger → Ledger
opened_today today l = opened_on today l.date l.runs l.executions

abbrev pub permits : Result Decision → Bool
permits (ok execute) = true
permits _ = false

-- The metrics that a run executes, by the ledger at its start.
abbrev pub is_due : ℕ → Ledger → MetricDef → Bool
is_due now l m = permits (should_execute m now l.runs (l.executions m.id) false)

-- The entry of one run: every due metric is executed once.
abbrev pub entered : ℕ → List MetricDef → Ledger → Ledger
entered now ms l = record l { executions = λ j. l.executions j + times j (keep (is_due now l) ms) }

abbrev pub recorded : String → ℕ → List MetricDef → Ledger → Ledger
recorded today now ms l = entered now ms (opened_today today l)

pub begin_run-opened_today :
    (today : String) (state : ScheduleState)
    → ledger_of (begin_run today state) ≡ opened_today today (ledger_of state)
unfolding begin_run get_or lookup
begin_run-opened_today today state = by_date state.date state.run_counter state.metrics
  where
    by_date :
        (date : Option String) (n : ℕ) (counts : _)
        → ledger_of (begin_run today (record { date = date; run_counter = n; metrics = counts }))
          ≡ opened_on today date n (λ j. get_or j counts 0)
    by_date none n counts = refl
    by_date (some date) n counts = ground arith

-- Outside a dry run the loop of `run` chooses the due metrics, in their order.
select-keep :
    (state : ScheduleState) (now : ℕ) (ms : List MetricDef) (r : List MetricDef × ℕ)
    → select state now false ms ≡ ok r
    → r.0 ≡ keep (is_due now (ledger_of state)) ms
unfolding select keep add_decision
select-keep state now [] r e = ground arith
select-keep state now (m ∷ ms) r e =
    let (d, r', p, q, a) =
      joined m (should_execute m now state.run_counter (get_or m.id state.metrics 0) false)
        (select state now false ms) r e in
    rw p (by_decision d r' (select-keep state now ms r' q) a)
  where
    by_decision :
        (d : Decision) (r' : List MetricDef × ℕ)
        → r'.0 ≡ keep (is_due now (ledger_of state)) ms
        → add_decision d m r' ≡ r
        → r.0 ≡ (
            if permits (ok d)
            then m ∷ keep (is_due now (ledger_of state)) ms
            else keep (is_due now (ledger_of state)) ms)
    by_decision execute r' h a = ground arith
    by_decision (skip reason) r' h a = ground arith

pub count_executions-entered :
    (state : ScheduleState) (now : ℕ) (ms : List MetricDef) (r : List MetricDef × ℕ)
    → select state now false ms ≡ ok r
    → ledger_of (record state { metrics = count_executions r.0 state.metrics })
      ≡ entered now ms (ledger_of state)
count_executions-entered state now ms r e =
    ap (λ (f : String → ℕ). record { date = state.date; runs = state.run_counter; executions = f })
      (fun_ext (λ j.
        count_executions-times j r.0 state.metrics
        ∙ ap (λ (xs : List MetricDef). get_or j state.metrics 0 + times j xs)
            (select-keep state now ms r e)))

-- ===== src/Main/Quota.antt =====
-- main.py: the daily quotas, over whole invocations and what they leave in schedule.json.
pub mod Loaded
use mathlib.Core.Path.{subst}
use zabbig.Prelude.{
  ℕ, ◌≤◌, ◌≡◌, ◌⊎◌, inl, inr, refl, sym, true, Bool-cases, String, List, [], ◌∷◌, All, Result, ok,
  err, arith,
}
use zabbig.Prelude.State.{Action, ◌>>=◌, and_then, lift}
use zabbig.Prelude.Dict.{get_or, lookup}
use zabbig.Models.{ClientConfig, MetricDef, RunSummary}
use zabbig.Scheduler.Guards.{should_execute_iff}
use zabbig.Sender.{Network}
use zabbig.StateManager.{
  Disk, File, ScheduleState, schedule_of, load_schedule_state, load_schedule_state-schedule_of,
  save_schedule_state, save_state,
}
use zabbig.Main.{begin_run, select, count_executions}
use zabbig.Main.Schedule.{
  UniqueIds, IsWithin, OnceIfDue, FitsQuota, FitsQuota-suc, FitsQuota-zero, count_executions-times,
  select-OnceIfDue,
}
use zabbig.Main.Run.{
  Inputs, Machine, on_net, save, save_schedule, nothing_scheduled, run_scheduled, run_chosen,
  under_lock,
}

-- Every metric is within its quota of today, by the file on the disk.
abbrev pub Quotas : List MetricDef → Disk → Type 0
Quotas ms disk = All (IsWithin (schedule_of disk.schedule).metrics) ms

begin_run-counter :
    (today : String) (state : ScheduleState) → 1 ≤ (begin_run today state).run_counter
unfolding begin_run
begin_run-counter today state = ground arith

All-empty : (ms : List MetricDef) → All (IsWithin []) ms
unfolding get_or lookup
All-empty [] = tt
All-empty (m ∷ ms) = (FitsQuota-zero m.max_executions_per_day, All-empty ms)

begin_run-metrics :
    (today : String) (state : ScheduleState)
    → ((begin_run today state).metrics ≡ state.metrics) ⊎ ((begin_run today state).metrics ≡ [])
unfolding begin_run
begin_run-metrics today state = ground arith

begin_run-IsWithin :
    (today : String) (state : ScheduleState) (ms : List MetricDef)
    → All (IsWithin state.metrics) ms
    → All (IsWithin (begin_run today state).metrics) ms
begin_run-IsWithin today state ms h = elim (begin_run-metrics today state) [
  | inl e ↦ rw e h
  | inr e ↦ rw e (All-empty ms)
]

module _ (state : ScheduleState) (now : ℕ) (r : List MetricDef × ℕ)
    (c : 1 ≤ state.run_counter) where
  counted-IsWithin :
      (m : MetricDef)
      → IsWithin state.metrics m
      → OnceIfDue state now r.0 m
      → IsWithin (count_executions r.0 state.metrics) m
  counted-IsWithin m h (inl z) =
      subst (FitsQuota m.max_executions_per_day)
        (omega (arith, z, count_executions-times m.id r.0 state.metrics)) h
  counted-IsWithin m h (inr (once, due)) =
      let n = get_or m.id state.metrics 0 in
      let quota = ((should_execute_iff m now state.run_counter n c).0.0 due).2 in
      subst (FitsQuota m.max_executions_per_day)
        (omega (arith, once, count_executions-times m.id r.0 state.metrics))
        (FitsQuota-suc m.max_executions_per_day n quota)

  All-counted :
      (ms : List MetricDef)
      → All (IsWithin state.metrics) ms
      → All (OnceIfDue state now r.0) ms
      → All (IsWithin (count_executions r.0 state.metrics)) ms
  All-counted [] h k = tt
  All-counted (m ∷ ms) (h, hs) (k, ks) = (counted-IsWithin m h k, All-counted ms hs ks)

module _ (ms : List MetricDef) where
  write_schedule-Quotas :
      (state : ScheduleState) (disk : Disk)
      → All (IsWithin state.metrics) ms
      → Quotas ms disk
      → Quotas ms (save_schedule_state state disk).1
  unfolding save_schedule_state
  write_schedule-Quotas state disk new old = elim (Bool-cases disk.dir_ok) [
    | inr bad ↦ rw bad old
    | inl good ↦ elim (Bool-cases disk.write_ok) [
      | inl w ↦ rw (good, w) new
      | inr w ↦ rw (good, w) old
    ]
  ]

  pub save_state-schedule :
      (config : ClientConfig) (now : ℕ) (d : _) (summary : RunSummary) (disk : Disk)
      → (save_state config now d summary disk).1.schedule ≡ disk.schedule
  unfolding save_state
  save_state-schedule config now d summary disk = ground arith

  Quotas-schedule : (d e : Disk) → e.schedule ≡ d.schedule → Quotas ms d → Quotas ms e
  Quotas-schedule d e same h =
      subst (λ (file : File ScheduleState). All (IsWithin (schedule_of file).metrics) ms) (sym same)
        h

-- An action after which the quotas hold if they held before.
record Keeps (net : Network) (ms : List MetricDef) {A : Type 0} (action : Action (Machine net) A)
    : Type 0 where
  apply : (m : Machine net) → Quotas ms m.disk → Quotas ms (action m).1.disk

module _ (net : Network) (ms : List MetricDef) {A : Type 0} where
  and_then-Keeps :
      {B : Type 0} (rest : A → Action (Machine net) B)
      → ((a : A) → Keeps net ms (rest a))
      → (r : Result A) (m : Machine net) → Quotas ms m.disk
      → Quotas ms (and_then r rest m).1.disk
  and_then-Keeps rest k (ok a) m h = (k a).apply m h
  and_then-Keeps rest k (err e) m h = h

  >>=-Keeps :
      {B : Type 0} {first : Action (Machine net) A} {rest : A → Action (Machine net) B}
      → Keeps net ms first
      → ((a : A) → Keeps net ms (rest a))
      → Keeps net ms (first >>= rest)
  >>=-Keeps {first} {rest} f k = record {
    apply = λ m h. and_then-Keeps rest k (first m).0 (first m).1 (f.apply m h);
  }

  lift-Keeps : (r : Result A) → Keeps net ms (lift r)
  lift-Keeps r = record { apply = λ m h. h }

module _ (net : Network) (inputs : Inputs net) (config : ClientConfig) (ms : List MetricDef) where
  -- A schedule that is not written, or that is within all quotas.
  abbrev MaySave : ScheduleState → Type 0
  MaySave state = (config.runtime.dry_run ≡ true) ⊎ All (IsWithin state.metrics) ms

  save_schedule-Keeps :
      (state : ScheduleState) → MaySave state → Keeps net ms (save_schedule net inputs config state)
  unfolding save_schedule
  save_schedule-Keeps state (inl dry) = record { apply = λ m old. rw dry old }
  save_schedule-Keeps state (inr new) = record {
    apply = λ m old. elim (Bool-cases config.runtime.dry_run) [
      | inl dry ↦ rw dry old
      | inr wet ↦ rw wet (write_schedule-Quotas ms state m.disk new old)
    ];
  }

  save-Keeps : (summary : RunSummary) → Keeps net ms (save net inputs config summary)
  unfolding save
  save-Keeps summary = record {
    apply = λ m h.
        let d = inputs.rounded summary.duration_ms in
        Quotas-schedule ms m.disk (save_state config inputs.clock.now d summary m.disk).1
          (save_state-schedule ms config inputs.clock.now d summary m.disk) h;
  }

  on_net-Keeps :
      {A : Type 0} (action : Action net.State A) → Keeps net ms (on_net net inputs action)
  unfolding on_net
  on_net-Keeps action = record { apply = λ m h. h }

  nothing_scheduled-Keeps :
      (state : ScheduleState) (summary : RunSummary)
      → MaySave state
      → Keeps net ms (nothing_scheduled net inputs config state summary)
  unfolding nothing_scheduled
  nothing_scheduled-Keeps state summary new =
      >>=-Keeps net ms (save_schedule-Keeps state new) (λ _.
        >>=-Keeps net ms (save-Keeps summary) (λ _. lift-Keeps net ms (ok (summary, 0, true))))

  run_scheduled-Keeps :
      (state : ScheduleState) (scheduled : List MetricDef) (summary : RunSummary)
      → MaySave (record state { metrics = count_executions scheduled state.metrics })
      → Keeps net ms (run_scheduled net inputs config state scheduled summary)
  unfolding run_scheduled
  run_scheduled-Keeps state scheduled summary new =
      >>=-Keeps net ms (on_net-Keeps _) (λ result.
        >>=-Keeps net ms (save_schedule-Keeps _ new) (λ _. lift-Keeps net ms (ok result)))

  run_chosen-Keeps :
      (state : ScheduleState) (summary : RunSummary) (chosen : List MetricDef × ℕ)
      → MaySave state
      → MaySave (record state { metrics = count_executions chosen.0 state.metrics })
      → Keeps net ms (run_chosen net inputs config state summary chosen)
  unfolding run_chosen
  run_chosen-Keeps state summary ([], n) old new = nothing_scheduled-Keeps state _ old
  run_chosen-Keeps state summary (c ∷ cs, n) old new =
      >>=-Keeps net ms (run_scheduled-Keeps state (c ∷ cs) _ new) (λ _. lift-Keeps net ms _)

  MaySave-counted :
      (state : ScheduleState) (r : List MetricDef × ℕ)
      → UniqueIds ms
      → 1 ≤ state.run_counter
      → All (IsWithin state.metrics) ms
      → select state inputs.now_minutes config.runtime.dry_run ms ≡ ok r
      → MaySave (record state { metrics = count_executions r.0 state.metrics })
  MaySave-counted state r u c h e = elim (Bool-cases config.runtime.dry_run) [
    | inl dry ↦ inl dry
    | inr wet ↦ inr (
        All-counted state inputs.now_minutes r c ms h
          (select-OnceIfDue state inputs.now_minutes ms r u (rw wet at e)))
  ]

  -- If the ids of the metrics are unique and schedule.json has every metric within its daily quota,
  -- then so it is after the locked part of any invocation, dry or not, on the same or another day, also
  -- where the run fails, raises or cannot write.
  pub under_lock-Quotas :
      (summary : RunSummary) (m : Machine net)
      → UniqueIds ms
      → Quotas ms m.disk
      → Quotas ms (under_lock net inputs config ms summary m).1.disk
  unfolding under_lock
  under_lock-Quotas summary m u h = by_load (load_schedule_state m.disk) refl
    where
      chosen_case :
          (state : ScheduleState)
          → All (IsWithin state.metrics) ms
          → 1 ≤ state.run_counter
          → (r : Result (List MetricDef × ℕ))
          → select state inputs.now_minutes config.runtime.dry_run ms ≡ r
          → Quotas ms (and_then r (run_chosen net inputs config state summary) m).1.disk
      chosen_case state old counter (ok r) e =
          (run_chosen-Keeps state summary r (inr old)
              (MaySave-counted state r u counter old e)).apply
            m h
      chosen_case state old counter (err x) e = h

      by_load :
          (r : Result ScheduleState)
          → load_schedule_state m.disk ≡ r
          → Quotas ms
              (and_then r
                (λ stored.
                  let state = begin_run inputs.today stored in
                  lift (select state inputs.now_minutes config.runtime.dry_run ms)
                  >>= run_chosen net inputs config state summary)
                m).1.disk
      by_load (err e) loaded = h
      by_load (ok stored) loaded =
          let old =
            subst (λ (s : ScheduleState). All (IsWithin s.metrics) ms)
              (load_schedule_state-schedule_of m.disk stored loaded) h in
          chosen_case (begin_run inputs.today stored)
            (begin_run-IsWithin inputs.today stored ms old) (begin_run-counter inputs.today stored)
            (select (begin_run inputs.today stored) inputs.now_minutes config.runtime.dry_run ms)
            refl

-- ===== src/Main/Ledger/Refines.antt =====
-- main.py: the locked part of `run` and the ledger of the day.
use mathlib.Core.Path.{subst}
use zabbig.Prelude.{
  ℕ, ◌≡◌, ◌⊎◌, refl, sym, ap, ◌∙◌, Bool, true, false, Bool-cases, inl, inr, Option, List, [], ◌∷◌,
  map, Result, ok, err, Exc, ok-ne-err, if◌then◌else◌, arith,
}
use zabbig.Prelude.State.{and_then, lift, pure, ◌>>=◌}
use zabbig.Prelude.Float.{Float}
use zabbig.Models.{ClientConfig, MetricDef, RunSummary}
use zabbig.Sender.{Network}
use zabbig.Locking.{LockFile, acquire, release}
use zabbig.Locking.Alone.{release_lem}
use zabbig.StateManager.{
  Disk, RunState, ScheduleState, holds, load_raw, schedule_of, load_schedule_state,
  load_schedule_state-schedule_of, save_schedule_state, run_state, write_run_state, save_state,
}
use zabbig.Registry.{load_collectors_for}
use zabbig.Main.{begin_run, select, count_executions, run_with_timeout}
use zabbig.Main.Run.{
  Inputs, Machine, on_net, save, save_schedule, nothing_scheduled, run_scheduled, run_chosen,
  under_lock, leave_lock, locked,
}
use zabbig.Main.Ledger.{
  Ledger, ledger_of, view, entered, opened_today, recorded, begin_run-opened_today,
  count_executions-entered,
}

module _ (net : Network) (inputs : Inputs net) (config : ClientConfig) (ms : List MetricDef)
    (wet : config.runtime.dry_run ≡ false) where
  -- An exception that is raised after schedule.json has been written: that of reading last_run.json, or that
  -- of removing the lock file.
  abbrev pub IsLate : Exc → Machine net → Type 0
  IsLate e m = (load_raw m.disk.last_run ≡ err e) ⊎ (inputs.system.can_remove ≡ false)

  -- A result that leaves the second ledger on the disk, or an exception that leaves the first, or the second
  -- if it is a late one.
  abbrev pub Leaves : {A : Type 0} → Ledger → Ledger → Result A → Machine net → Type 0
  Leaves before done (ok a) m = view m.disk ≡ done
  Leaves before done (err e) m = (view m.disk ≡ before) ⊎ ((view m.disk ≡ done) × IsLate e m)

  save_schedule-writes :
      (state : ScheduleState) (m : Machine net)
      → m.disk.dir_ok ≡ true
      → m.disk.write_ok ≡ true
      → save_schedule net inputs config state m
        ≡ (ok tt, record m { disk = record m.disk { schedule = holds state } })
  unfolding save_schedule save_schedule_state
  save_schedule-writes state m d w = rw (wet, d, w) refl

  pure-Leaves :
      {A B : Type 0} (f : A → B) (before done : Ledger) (r : Result A) (m : Machine net)
      → Leaves before done r m
      → Leaves before done (and_then r (λ a. pure (f a)) m).0 (and_then r (λ a. pure (f a)) m).1
  pure-Leaves f before done (ok a) m h = h
  pure-Leaves f before done (err e) m h = h

  save_state-reads :
      (now : ℕ) (rounded : Float) (summary : RunSummary) (disk : Disk)
      → config.state.enabled ≡ true
      → disk.dir_ok ≡ true
      → save_state config now rounded summary disk
        ≡ and_then
            (load_raw disk.last_run)
            (λ existing d. (ok tt, write_run_state (run_state now rounded summary existing) d))
            disk
  unfolding save_state
  save_state-reads now rounded summary disk on d = ground (arith, on, d)

  save-Leaves :
      (before : Ledger) (summary : RunSummary) (m : Machine net)
      → m.disk.dir_ok ≡ true
      → Leaves before
          (view m.disk)
          (save net inputs config summary m).0
          (save net inputs config summary m).1
  unfolding save save_state write_run_state
  save-Leaves before summary m d = elim (Bool-cases config.state.enabled) [
    | inr off ↦ rw off refl
    | inl on ↦
        subst
          (λ (x : Result (Unit {0}) × Disk).
            Leaves before (view m.disk) x.0 (record m { disk = x.1 }))
          (sym (
            save_state-reads inputs.clock.now (inputs.rounded summary.duration_ms) summary m.disk on
              d))
          (by_raw (load_raw m.disk.last_run) refl)
  ]
    where
      written :
          (state : RunState) (b : Bool)
          → view (if b then record m.disk { last_run = holds state } else m.disk) ≡ view m.disk
      written state true = refl
      written state false = refl

      by_raw :
          (r : Result (Option RunState))
          → load_raw m.disk.last_run ≡ r
          → (let x =
                and_then r
                  (λ existing d. (
                    ok tt,
                    write_run_state
                        (run_state inputs.clock.now
                          (inputs.rounded summary.duration_ms)
                          summary
                          existing)
                        d,
                  ))
                  m.disk in
              Leaves before (view m.disk) x.0 (record m { disk = x.1 }))
      by_raw (ok existing) p =
          written (run_state inputs.clock.now (inputs.rounded summary.duration_ms) summary existing)
            m.disk.write_ok
      by_raw (err e) p = inr (refl, inl p)

  nothing_scheduled-Leaves :
      (state : ScheduleState) (before : Ledger) (summary : RunSummary) (m : Machine net)
      → m.disk.dir_ok ≡ true
      → m.disk.write_ok ≡ true
      → Leaves before
          (ledger_of state)
          (nothing_scheduled net inputs config state summary m).0
          (nothing_scheduled net inputs config state summary m).1
  unfolding nothing_scheduled
  nothing_scheduled-Leaves state before summary m d w =
      let m' : Machine net = record m { disk = record m.disk { schedule = holds state } } in
      rw (save_schedule-writes state m d w) (
        pure-Leaves (λ _. (summary, 0, true)) before (ledger_of state)
          (save net inputs config summary m').0 (save net inputs config summary m').1
          (save-Leaves before summary m' d))

  saved-Leaves :
      {A : Type 0} (state : ScheduleState) (r : Result A) (m : Machine net)
      → m.disk.dir_ok ≡ true
      → m.disk.write_ok ≡ true
      → Leaves
          (view m.disk)
          (ledger_of state)
          (and_then r (λ a. save_schedule net inputs config state >>= λ _. pure a) m).0
          (and_then r (λ a. save_schedule net inputs config state >>= λ _. pure a) m).1
  saved-Leaves state (ok a) m d w = rw (save_schedule-writes state m d w) refl
  saved-Leaves state (err e) m d w = inl refl

  run_scheduled-Leaves :
      (state : ScheduleState) (scheduled : List MetricDef) (summary : RunSummary) (m : Machine net)
      → m.disk.dir_ok ≡ true
      → m.disk.write_ok ≡ true
      → Leaves
          (view m.disk)
          (ledger_of (record state { metrics = count_executions scheduled state.metrics }))
          (run_scheduled net inputs config state scheduled summary m).0
          (run_scheduled net inputs config state scheduled summary m).1
  unfolding run_scheduled on_net
  run_scheduled-Leaves state scheduled summary m d w =
      let counted : ScheduleState = record state {
        metrics = count_executions scheduled state.metrics;
      } in
      let registry =
        load_collectors_for inputs.class_of (map (λ (n : MetricDef). n.collector) scheduled)
          inputs.registered in
      let x =
        run_with_timeout net config inputs.cut (inputs.world registry) inputs.output inputs.clock
          scheduled summary m.outside in
      saved-Leaves counted x.0 (record m { outside = x.1 }) d w

  run_chosen-Leaves :
      (state : ScheduleState) (summary : RunSummary) (chosen : List MetricDef × ℕ) (m : Machine net)
      → m.disk.dir_ok ≡ true
      → m.disk.write_ok ≡ true
      → Leaves
          (view m.disk)
          (ledger_of (record state { metrics = count_executions chosen.0 state.metrics }))
          (run_chosen net inputs config state summary chosen m).0
          (run_chosen net inputs config state summary chosen m).1
  unfolding run_chosen count_executions
  run_chosen-Leaves state summary ([], n) m d w =
      nothing_scheduled-Leaves state (view m.disk) _ m d w
  run_chosen-Leaves state summary (c ∷ cs, n) m d w =
      pure-Leaves (λ (result : RunSummary × ℕ). (result.0, result.1, false)) (view m.disk) _
        (run_scheduled net inputs config state (c ∷ cs) _ m).0
        (run_scheduled net inputs config state (c ∷ cs) _ m).1
        (run_scheduled-Leaves state (c ∷ cs) _ m d w)

  released-Leaves :
      {A : Type 0} (before done : Ledger) (r : Result A) (m : Machine net) (lock : LockFile)
      → Leaves before done r m
      → Leaves before done r (record m { lock = lock })
  released-Leaves before done (ok a) m lock h = h
  released-Leaves before done (err e) m lock h = h

  under_lock-Leaves :
      (summary : RunSummary) (m : Machine net)
      → m.disk.dir_ok ≡ true
      → m.disk.write_ok ≡ true
      → Leaves
          (view m.disk)
          (recorded inputs.today inputs.now_minutes ms (view m.disk))
          (under_lock net inputs config ms summary m).0
          (under_lock net inputs config ms summary m).1
  unfolding under_lock
  under_lock-Leaves summary m d w = by_load (load_schedule_state m.disk) refl
    where
      now : ℕ
      now = inputs.now_minutes

      by_choice :
          (stored : ScheduleState)
          → schedule_of m.disk.schedule ≡ stored
          → (r : Result (List MetricDef × ℕ))
          → select (begin_run inputs.today stored) now config.runtime.dry_run ms ≡ r
          → (let state = begin_run inputs.today stored in
              Leaves
                (view m.disk)
                (recorded inputs.today now ms (view m.disk))
                (and_then r (run_chosen net inputs config state summary) m).0
                (and_then r (run_chosen net inputs config state summary) m).1)
      by_choice stored same (err e) p = inl refl
      by_choice stored same (ok r) p =
          let state = begin_run inputs.today stored in
          subst
            (λ (done : Ledger).
              Leaves (view m.disk) done (run_chosen net inputs config state summary r m).0
                (run_chosen net inputs config state summary r m).1)
            (count_executions-entered state now ms r (rw wet at p)
              ∙ ap (entered now ms) (
                  begin_run-opened_today inputs.today stored
                  ∙ ap (λ (s : ScheduleState). opened_today inputs.today (ledger_of s)) (sym same)))
            (run_chosen-Leaves state summary r m d w)

      by_load :
          (loaded : Result ScheduleState)
          → load_schedule_state m.disk ≡ loaded
          → (let x =
                and_then loaded
                  (λ stored.
                    let state = begin_run inputs.today stored in
                    lift (select state inputs.now_minutes config.runtime.dry_run ms)
                    >>= run_chosen net inputs config state summary)
                  m in
              Leaves (view m.disk) (recorded inputs.today now ms (view m.disk)) x.0 x.1)
      by_load (err e) p = inl refl
      by_load (ok stored) p =
          by_choice stored (load_schedule_state-schedule_of m.disk stored p)
            (select (begin_run inputs.today stored) now config.runtime.dry_run ms) refl

  leave_lock-Leaves :
      {A : Type 0} (before done : Ledger) (x : Result A × Machine net)
      → Leaves before done x.0 x.1
      → Leaves before done (leave_lock net inputs x).0 (leave_lock net inputs x).1
  unfolding leave_lock
  leave_lock-Leaves {A} before done (result, after) h =
      by_release (release inputs.system after.lock) refl
    where
      late :
          (e : Exc) (lock : LockFile) (r : Result A)
          → inputs.system.can_remove ≡ false
          → Leaves before done r after
          → Leaves {A = A} before done (err e) (record after { lock = lock })
      late e lock (ok a) cannot h = inr (h, inr cannot)
      late e lock (err x) cannot (inl old) = inl old
      late e lock (err x) cannot (inr (new, _)) = inr (new, inr cannot)

      by_release :
          (y : Result (Unit {0}) × LockFile)
          → release inputs.system after.lock ≡ y
          → (let z = and_then y.0 (λ _ m. (result, m)) (record after { lock = y.1 }) in
              Leaves before done z.0 z.1)
      by_release (ok u, lock) p = released-Leaves before done result after lock h
      by_release (err e, lock) p = elim (release_lem inputs.system after.lock) [
        | inr cannot ↦ late e lock result cannot h
        | inl gone ↦
            absurd (ok-ne-err tt e (ap (λ (y : Result (Unit {0}) × LockFile). y.0) (sym gone ∙ p)))
      ]

  -- Outside a dry run, where the state directory can be written, the locked part of `run` refines the
  -- ledger of the day. If it returns, schedule.json has one entry more: on a new date the ledger starts
  -- afresh, the run is counted, and every enabled metric that is due by the ledger has one execution
  -- more, all other ids none. If it raises, also where the lock is taken, the ledger is as before, with one
  -- exception: the entry may have been made if what is raised comes from reading last_run.json, or if the
  -- lock file cannot be removed.
  pub locked-Leaves :
      (summary : RunSummary) (m : Machine net)
      → m.disk.dir_ok ≡ true
      → m.disk.write_ok ≡ true
      → Leaves
          (view m.disk)
          (recorded inputs.today inputs.now_minutes ms (view m.disk))
          (locked net inputs config ms summary m).0
          (locked net inputs config ms summary m).1
  unfolding locked
  locked-Leaves summary m d w = by_lock (acquire 2 inputs.system m.lock)
    where
      by_lock :
          (x : Result (Unit {0}) × LockFile)
          → (let entry = under_lock net inputs config ms summary (record m { lock = x.1 }) in
              let y : Result (RunSummary × ℕ × Bool) × Machine net = elim x.0 [
                | ok _ ↦ leave_lock net inputs entry
                | err e ↦ (err e, record m { lock = x.1 })
              ] in
              Leaves
                (view m.disk)
                (recorded inputs.today inputs.now_minutes ms (view m.disk))
                y.0
                y.1)
      by_lock (ok u, lock) =
          leave_lock-Leaves _ _ (under_lock net inputs config ms summary (record m { lock = lock }))
            (under_lock-Leaves summary (record m { lock = lock }) d w)
      by_lock (err e, lock) = inl refl

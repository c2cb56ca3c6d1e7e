-- ===== src/Main/Exit.antt =====
-- main.py, `run`: its exit code, and the run lock after it.
use zabbig.Prelude.{
  ℕ, suc, ◌≤◌, ◌≡◌, ◌⊎◌, inl, inr, refl, sym, ap, ◌∙◌, Bool, true, false, Option, none, some, List,
  [], ◌∷◌, any, length, ◌==◌, string_eq, Result, ok, err, Exc, ExcKind, raise, os_error, lock_error,
  if◌then◌else◌, ok-ne-err, arith,
}
use zabbig.Prelude.State.{and_then, pure}
use zabbig.Models.{ClientConfig, MetricDef, RunSummary, fresh_summary}
use zabbig.Models.Dynamic.{Fields}
use zabbig.Sender.{Network}
use zabbig.Locking.{System, LockFile, absent, present, is_stale, acquire, release}
use zabbig.Locking.Alone.{release_lem}
use zabbig.Main.{send_fatal_failure, enabled_metrics}
use zabbig.Main.Codes.{AllOk, under_lock-code}
use zabbig.Main.Run.{
  Inputs, Machine, on_net, save, under_lock, leave_lock, locked, after_lock, fatal, run_metrics,
  run_enabled, run, load_registry, inject, with_flags,
}

-- The lock file as a run finds it, and as it leaves it: the same, or no file, or an empty new one where
-- its PID could not be written, or anything where lock files cannot be removed.
abbrev pub IsGone : System → LockFile → LockFile → Type 0
IsGone os before after =
    (after ≡ before)
    ⊎ ((after ≡ absent)
        ⊎ (((os.can_write ≡ false) × (after ≡ present none)) ⊎ (os.can_remove ≡ false)))

-- A first round without a lock file that raises.
created :
    (create write : Bool) (pid : ℕ) (no_file no_pid e : Exc)
    → (let x : Result (Unit {0}) × LockFile =
          if create
          then if write then (ok tt, present (some pid)) else (err no_pid, present none)
          else (err no_file, absent) in
        x.0 ≡ err e → (x.1 ≡ absent) ⊎ ((write ≡ false) × (x.1 ≡ present none)))
created true true pid no_file no_pid e p = absurd (ok-ne-err tt e p)
created true false pid no_file no_pid e p = inr (refl, refl)
created false write pid no_file no_pid e p = inl refl

acquire-absent :
    (rounds : ℕ) (os : System) (e : Exc)
    → (acquire (suc rounds) os absent).0 ≡ err e
    → ((acquire (suc rounds) os absent).1 ≡ absent)
      ⊎ ((os.can_write ≡ false) × ((acquire (suc rounds) os absent).1 ≡ present none))
unfolding acquire
acquire-absent rounds os e p = created os.can_create os.can_write os.pid _ _ e p

acquire-IsGone :
    (os : System) (file : LockFile) (e : Exc)
    → (acquire 2 os file).0 ≡ err e
    → IsGone os file (acquire 2 os file).1
unfolding acquire
acquire-IsGone os absent e p = elim (acquire-absent 1 os e p) [
  | inl none_made ↦ inl none_made
  | inr empty ↦ inr (inr (inl empty))
]
acquire-IsGone os (present content) e p = by_tests (is_stale os content) os.can_remove p
  where
    by_tests :
        (stale remove : Bool)
        → (let x : Result (Unit {0}) × LockFile =
              if stale
              then if remove
                then acquire 1 os absent
                else (raise os_error "cannot remove the lock file", present content)
              else (raise lock_error "Another instance is already running", present content) in
            x.0 ≡ err e → IsGone os (present content) x.1)
    by_tests true true q = elim (acquire-absent 0 os e q) [
      | inl gone ↦ inr (inl gone)
      | inr empty ↦ inr (inr (inl empty))
    ]
    by_tests true false q = inl refl
    by_tests false remove q = inl refl

module _ (net : Network) where
  -- The end of a run: an exit code of 0, 1 or 2 if it returns one, and the lock.
  abbrev pub Ends : System → LockFile → Result ℕ × Machine net → Type 0
  Ends os before (r, m) = AllOk (λ code. code ≤ 2) r × IsGone os before m.lock

  coded-Ends :
      {A : Type 0} (os : System) (before : LockFile) (code : ℕ) (r : Result A) (m : Machine net)
      → code ≤ 2
      → IsGone os before m.lock
      → Ends os before (and_then r (λ _. pure code) m)
  coded-Ends os before code (ok a) m low gone = (low, gone)
  coded-Ends os before code (err e) m low gone = (tt, gone)

  module _ (inputs : Inputs net) (config : ClientConfig) where
    leave_lock-IsGone :
        (before : LockFile) (x : Result (RunSummary × ℕ × Bool) × Machine net)
        → AllOk (λ r. r.1 ≤ 2) x.0
        → AllOk (λ r. r.1 ≤ 2) (leave_lock net inputs x).0
          × IsGone inputs.system before (leave_lock net inputs x).1.lock
    unfolding leave_lock
    leave_lock-IsGone before (result, after) low =
        by_release (release inputs.system after.lock) refl
      where
        gone :
            (y : Result (Unit {0}) × LockFile)
            → release inputs.system after.lock ≡ y
            → IsGone inputs.system before y.1
        gone y p = elim (release_lem inputs.system after.lock) [
          | inl e ↦ inr (inl (ap (λ (z : Result (Unit {0}) × LockFile). z.1) (sym p ∙ e)))
          | inr cannot ↦ inr (inr (inr cannot))
        ]

        by_release :
            (y : Result (Unit {0}) × LockFile)
            → release inputs.system after.lock ≡ y
            → (let z = and_then y.0 (λ _ m. (result, m)) (record after { lock = y.1 }) in
                AllOk (λ r. r.1 ≤ 2) z.0 × IsGone inputs.system before z.1.lock)
        by_release (ok u, lock) p = (low, gone (ok u, lock) p)
        by_release (err e, lock) p = (tt, gone (err e, lock) p)

    locked-IsGone :
        (ms : List MetricDef) (summary : RunSummary) (m : Machine net)
        → AllOk (λ r. r.1 ≤ 2) (locked net inputs config ms summary m).0
          × IsGone inputs.system m.lock (locked net inputs config ms summary m).1.lock
    unfolding locked
    locked-IsGone ms summary m = by_lock (acquire 2 inputs.system m.lock).0 refl
      where
        inside : Result (RunSummary × ℕ × Bool) × Machine net
        inside =
            under_lock net inputs config ms summary
              (record m { lock = (acquire 2 inputs.system m.lock).1 })

        by_lock :
            (entered : Result (Unit {0}))
            → (acquire 2 inputs.system m.lock).0 ≡ entered
            → (let x : Result (RunSummary × ℕ × Bool) × Machine net = elim entered [
              | ok _ ↦ leave_lock net inputs inside
              | err e ↦ (err e, record m { lock = (acquire 2 inputs.system m.lock).1 })
            ] in
                AllOk (λ r. r.1 ≤ 2) x.0 × IsGone inputs.system m.lock x.1.lock)
        by_lock (ok u) p = leave_lock-IsGone m.lock inside (
            under_lock-code net inputs config ms summary
              (record m { lock = (acquire 2 inputs.system m.lock).1 }))
        by_lock (err e) p = (tt, acquire-IsGone inputs.system m.lock e p)

    after_lock-Ends :
        (before : LockFile) (r : Result (RunSummary × ℕ × Bool)) (m : Machine net)
        → AllOk (λ x. x.1 ≤ 2) r
        → IsGone inputs.system before m.lock
        → Ends inputs.system before (after_lock net inputs config r m)
    unfolding after_lock save
    after_lock-Ends before (ok (summary, code, true)) m low gone = (low, gone)
    after_lock-Ends before (ok (summary, code, false)) m low gone =
        coded-Ends inputs.system before code (save net inputs config summary m).0
          (save net inputs config summary m).1 low gone
    after_lock-Ends before (err e) m low gone = by_kind e.kind
      where
        by_kind :
            (kind : ExcKind)
            → Ends inputs.system before (elim kind [ lock_error ↦ (ok 2, m) | _ ↦ (err e, m) ])
        by_kind lock_error = (omega arith, gone)
        by_kind _ = (tt, gone)

    fatal-Ends : (m : Machine net) → Ends inputs.system m.lock (fatal net inputs config m)
    unfolding fatal on_net
    fatal-Ends m =
        let x = send_fatal_failure net config inputs.clock.now m.outside in
        coded-Ends inputs.system m.lock 2 x.0 (record m { outside = x.1 }) (omega arith) (inl refl)

    run_metrics-Ends :
        (all ms : List MetricDef) (m : Machine net)
        → Ends inputs.system m.lock (run_metrics net inputs config all ms m)
    unfolding run_metrics
    run_metrics-Ends all [] m = (omega arith, inl refl)
    run_metrics-Ends all (x ∷ xs) m =
        let summary : RunSummary = record fresh_summary {
          total_configured = length all;
          enabled = length (x ∷ xs);
        } in
        let (low, gone) = locked-IsGone (x ∷ xs) summary m in
        after_lock-Ends m.lock (locked net inputs config (x ∷ xs) summary m).0
          (locked net inputs config (x ∷ xs) summary m).1 low gone

    run_enabled-Ends :
        (all : List MetricDef) (m : Machine net)
        → Ends inputs.system m.lock (run_enabled net inputs config all m)
    unfolding run_enabled
    run_enabled-Ends all m =
        let ms = enabled_metrics config.features all in
        by_registry ms (
          load_registry (any (λ n. n.collector == "database") ms)
            config.features.strict_config_validation inputs.databases)
      where
        by_registry :
            (ms : List MetricDef) (r : Result (Option Fields))
            → Ends inputs.system m.lock (
                and_then r
                  (λ registry. elim registry [
                    | none ↦ fatal net inputs config
                    | some fields ↦ run_metrics net inputs config all (inject fields ms)
                  ])
                  m)
        by_registry ms (ok none) = fatal-Ends m
        by_registry ms (ok (some fields)) = run_metrics-Ends all (inject fields ms) m
        by_registry ms (err e) = (tt, inl refl)

-- An invocation, however it ends, also by an exception: if it returns an exit code, the code is 0, 1 or 2.
-- The lock file is as it was, or there is none, or, where the PID could not be written, there is an empty
-- one; where lock files cannot be removed, nothing is said of it.
pub run-Ends :
    (net : Network) (inputs : Inputs net) (m : Machine net)
    → Ends net inputs.system m.lock (run net inputs m)
unfolding run
run-Ends net inputs m = by_config inputs.client_config
  where
    by_metrics :
        (config : ClientConfig) (r : Result (List MetricDef))
        → Ends net inputs.system m.lock (elim r [
          | err e ↦ fatal net inputs config m
          | ok all ↦ run_enabled net inputs config all m
        ])
    by_metrics config (ok all) = run_enabled-Ends net inputs config all m
    by_metrics config (err e) = fatal-Ends net inputs config m

    by_config :
        (r : Result ClientConfig)
        → Ends net inputs.system m.lock (elim r [
          | err e ↦ (ok 2, m)
          | ok loaded ↦
              let config =
                with_flags inputs.dry_run inputs.log_level_override inputs.upper loaded in
              elim (inputs.metrics_config config.features.strict_config_validation) [
                | err e ↦ fatal net inputs config m
                | ok all ↦ run_enabled net inputs config all m
              ]
        ])
    by_config (err e) = (omega arith, inl refl)
    by_config (ok loaded) =
        let config = with_flags inputs.dry_run inputs.log_level_override inputs.upper loaded in
        by_metrics config (inputs.metrics_config config.features.strict_config_validation)

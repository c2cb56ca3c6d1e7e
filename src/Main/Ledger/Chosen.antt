-- ===== src/Main/Ledger/Chosen.antt =====
-- scheduler.py and main.py: in which runs a metric is executed, its quota apart, and how often one run
-- executes it.
use zabbig.Prelude.{
  ℕ, zero, suc, ◌+◌, ◌≡◌, ◌≢◌, refl, String, Bool, true, false, ◌&&◌, Option, none, some, List, [],
  ◌∷◌, All, keep, length, leb, string_eq, if◌then◌else◌, Result, ok, ◌>>=◌, arith,
}
use zabbig.Prelude.Float.{ℤ, pos, negsuc}
use zabbig.Models.{MetricDef}
use zabbig.Scheduler.{
  Decision, execute, skip, window_from, window_till, quota, cadence, otherwise, should_execute,
}
use zabbig.Main.Schedule.{UniqueIds, times}
use zabbig.Main.Ledger.{permits}

-- The window of the metric is open and its frequency is due: it may run, its quota apart. A window whose
-- start is not before its end is never open.
abbrev pub is_open : ℕ → ℕ → MetricDef → Bool
is_open now run m =
    permits (should_execute (record m { max_executions_per_day = none }) now run 0 false)

-- The number of runs of the day in which a metric may run, for the times of the runs, the last first.
abbrev pub open_runs : List ℕ → MetricDef → ℕ
open_runs [] m = 0
open_runs (now ∷ earlier) m =
    open_runs earlier m + (if is_open now (length earlier + 1) m then 1 else 0)

-- At most the quota, if there is one above 0.
abbrev pub capped : Option ℤ → ℕ → ℕ
capped (some (pos zero)) n = n
capped (some (pos (suc k))) n = if leb n (suc k) then n else suc k
capped _ n = n

permits-quota :
    (q : Option ℤ) (n : ℕ)
    → capped q n + (if permits (ok (quota q (capped q n))) then 1 else 0) ≡ capped q (n + 1)
unfolding quota
permits-quota none n = refl
permits-quota (some (pos zero)) n = ground arith
permits-quota (some (pos (suc k))) n = ground arith
permits-quota (some (negsuc k)) n = refl

ladder-permits :
    (w v : Result Decision) (q c : Decision)
    → permits
        (do opened ← w; otherwise opened (do closed ← v; otherwise closed (otherwise q (ok c))))
      ≡ permits (ok q)
        && permits (do opened ← w; otherwise opened (do closed ← v; otherwise closed (ok c)))
ladder-permits (ok execute) (ok execute) execute c = ground arith
ladder-permits (ok execute) (ok execute) (skip r) c = ground arith
ladder-permits w v q c = ground arith

pub is_due-is_open :
    (now n run : ℕ) (m : MetricDef)
    → permits (should_execute m now run n false)
      ≡ permits (ok (quota m.max_executions_per_day n)) && is_open now run m
unfolding should_execute quota
is_due-is_open now n run m =
    ladder-permits (window_from m.time_window_from now) (window_till m.time_window_till now)
      (quota m.max_executions_per_day n) (cadence m.run_frequency run)

-- One more run keeps to the quota.
pub capped-step :
    (q : Option ℤ) (n : ℕ) (open_now : Bool)
    → capped q n + (if permits (ok (quota q (capped q n))) && open_now then 1 else 0)
      ≡ capped q (n + (if open_now then 1 else 0))
capped-step q n true = ground (arith, permits-quota q n)
capped-step q n false = ground arith

-- With unique ids, an id of the list is chosen once if its metric is, and else not at all.
times-other :
    (test : MetricDef → Bool) (j : String) (ms : List MetricDef)
    → All (λ n. n.id ≢ j) ms
    → times j (keep test ms) ≡ 0
unfolding keep
times-other test j [] h = refl
times-other test j (m ∷ ms) (d, h) = ground (arith, times-other test j ms h)

times-later :
    (test : MetricDef → Bool) (m : MetricDef) (ms ns : List MetricDef)
    → All (λ n. n.id ≢ m.id) ns
    → All (λ n. times n.id (keep test ms) ≡ (if test n then 1 else 0)) ns
    → All (λ n. times n.id (keep test (m ∷ ms)) ≡ (if test n then 1 else 0)) ns
unfolding keep
times-later test m ms [] d h = tt
times-later test m ms (n ∷ ns) (d, ds) (h, hs) = (ground arith, times-later test m ms ns ds hs)

pub times-keep :
    (test : MetricDef → Bool) (ms : List MetricDef)
    → UniqueIds ms
    → All (λ n. times n.id (keep test ms) ≡ (if test n then 1 else 0)) ms
unfolding keep
times-keep test [] u = tt
times-keep test (m ∷ ms) (d, u) =
    (ground (arith, times-other test m.id ms d), times-later test m ms ms d (times-keep test ms u))

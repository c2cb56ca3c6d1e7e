-- ===== src/Scheduler/Guards.antt =====
-- When scheduler.py lets a metric run.
use zabbig.Prelude.{
  ℕ, ◌≤◌, ◌<◌, ◌≡◌, ◌↔◌, ◌⊎◌, refl, true, false, String, Option, none, some, ok, err, Result, ◌>>=◌,
  ltb, leb, if◌then◌else◌, arith,
}
use zabbig.Prelude.Float.{ℤ, pos, negsuc}
use zabbig.Models.{MetricDef}
use zabbig.Scheduler.{
  Decision, execute, skip, before_window, after_window, parse_hhmm, window_from, window_till, quota,
  cadence, otherwise, should_execute,
}
use zabbig.Scheduler.Cadence.{IsDue, cadence_iff}

-- The window has begun.
abbrev pub HasBegun : Option String → ℕ → Type 0
HasBegun none now = Unit
HasBegun (some t) now = (k : ℕ) × (parse_hhmm t ≡ ok k) × (k ≤ now)

-- The window has not ended.
abbrev pub HasNotEnded : Option String → ℕ → Type 0
HasNotEnded none now = Unit
HasNotEnded (some t) now = (k : ℕ) × (parse_hhmm t ≡ ok k) × (now < k)

-- No quota, a quota of 0 or less, or fewer executions than the quota.
abbrev pub IsUnderQuota : Option ℤ → ℕ → Type 0
IsUnderQuota none n = Unit
IsUnderQuota (some (pos max_exec)) n = (max_exec ≡ 0) ⊎ (n < max_exec)
IsUnderQuota (some (negsuc _)) n = Unit

begun :
    (r : Result ℕ) (t : String) (now : ℕ)
    → (r >>= λ k. ok (if ltb now k then skip (before_window t now) else execute)) ≡ ok execute
    → (k : ℕ) × (r ≡ ok k) × (k ≤ now)
begun (ok k) t now h = (k, refl, ground arith)
begun (err e) t now h = cc

not_ended :
    (r : Result ℕ) (t : String) (now : ℕ)
    → (r >>= λ k. ok (if leb k now then skip (after_window t now) else execute)) ≡ ok execute
    → (k : ℕ) × (r ≡ ok k) × (now < k)
not_ended (ok k) t now h = (k, refl, ground arith)
not_ended (err e) t now h = cc

window_from_iff : (t : Option String) (now : ℕ) → (window_from t now ≡ ok execute) ↔ HasBegun t now
unfolding window_from
window_from_iff none now = (λ _. tt, λ _. refl)
window_from_iff (some t) now = (begun (parse_hhmm t) t now, λ (k, p, l). ground arith)

window_till_iff :
    (t : Option String) (now : ℕ) → (window_till t now ≡ ok execute) ↔ HasNotEnded t now
unfolding window_till
window_till_iff none now = (λ _. tt, λ _. refl)
window_till_iff (some t) now = (not_ended (parse_hhmm t) t now, λ (k, p, l). ground arith)

pub quota_iff : (q : Option ℤ) (n : ℕ) → (quota q n ≡ execute) ↔ IsUnderQuota q n
unfolding quota
quota_iff none n = (λ _. tt, λ _. refl)
quota_iff (some (pos m)) n = (λ e. ground arith, λ h. ground arith)
quota_iff (some (negsuc m)) n = (λ _. tt, λ _. refl)

-- The four tests are joined by "and".
ladder :
    (w v : Result Decision) (q c : Decision)
    → ((do opened ← w; otherwise opened (do closed ← v; otherwise closed (otherwise q (ok c))))
        ≡ ok execute)
      ↔ ((w ≡ ok execute) × (v ≡ ok execute) × (q ≡ execute) × (c ≡ execute))
ladder (ok execute) (ok execute) execute c = (λ e. (refl, refl, refl, cc), λ (_, _, _, d). cc)
ladder w v q c = (λ e. ground arith, λ (a, b, d, f). ground arith)

-- Outside a dry run a metric is collected exactly if its window is open, its quota of today is not
-- used up and its frequency is due. In a dry run it always is. The window is open from its start to before
-- its end on one day: one whose start is not before its end is never open, and does not go past midnight.
pub should_execute_iff :
    (m : MetricDef) (now run_counter count : ℕ)
    → 1 ≤ run_counter
    → ((should_execute m now run_counter count false ≡ ok execute) ↔ (
        HasBegun m.time_window_from now
        × HasNotEnded m.time_window_till now
        × IsUnderQuota m.max_executions_per_day count
        × IsDue m.run_frequency run_counter))
      × (should_execute m now run_counter count true ≡ ok execute)
unfolding should_execute
should_execute_iff m now run_counter count h =
    let four =
      ladder (window_from m.time_window_from now) (window_till m.time_window_till now)
        (quota m.max_executions_per_day count) (cadence m.run_frequency run_counter) in
    let a = window_from_iff m.time_window_from now in
    let b = window_till_iff m.time_window_till now in
    let c = quota_iff m.max_executions_per_day count in
    let d = cadence_iff m.run_frequency run_counter h in
    (
      (
        (λ e. let t = four.0 e in (a.0 t.0, b.0 t.1, c.0 t.2, d.0 t.3)),
        (λ (w, v, q, f). four.1 (a.1 w, b.1 v, c.1 q, d.1 f)),
      ),
      refl,
    )

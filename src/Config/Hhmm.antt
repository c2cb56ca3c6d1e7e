-- ===== src/Config/Hhmm.antt =====
-- config_loader.py, `_parse_hhmm_field`, and scheduler.py: what the loader lets through is a time.
use mathlib.Core.Path.{subst}
use zabbig.Prelude.{
  ℕ, ◌+◌, ◌*◌, ◌<◌, ◌≡◌, inl, inr, refl, sym, String, Bool, true, false, Bool-cases, not, ◌||◌,
  Option, none, some, length, take, drop, ltb, ◌==◌, nat_eq, Result, ok, Returns, >>=-Returns,
  invert, ok-ne-err, ok-injective, arith,
}
use zabbig.Prelude.Text.{codes, is_digits, int_of}
use zabbig.Models.{MetricDef}
use zabbig.Models.Dynamic.{Value, null}
use zabbig.Scheduler.{
  int_or_raise, parse_hhmm, Decision, execute, skip, window_from, window_till, otherwise, quota,
  cadence, should_execute,
}
use zabbig.Config.{rejected, in_range, checked_hhmm, hhmm_text, parse_hhmm_field, zfill}

-- A field that is absent, or a text that the scheduler reads as a time of the day.
abbrev pub IsTime : Option String → Type 0
IsTime none = Unit
IsTime (some s) = (k : ℕ) × (parse_hhmm s ≡ ok k) × (k < 1440)

-- A result that is no exception but a time.
abbrev GivesTime : Result (Option String) → Type 0
GivesTime r = (t : Option String) → r ≡ ok t → IsTime t

rejected-GivesTime : (strict : Bool) (message : String) → GivesTime (rejected strict message)
unfolding rejected
rejected-GivesTime true message t e = absurd (ok-ne-err t _ (sym e))
rejected-GivesTime false message none e = tt
rejected-GivesTime false message (some s) e = cc

hours_minutes :
    (s : String) (h m : ℕ)
    → int_or_raise (int_of (take 2 (codes s))) ≡ ok h
    → int_or_raise (int_of (drop 2 (codes s))) ≡ ok m
    → parse_hhmm s ≡ ok (h * 60 + m)
unfolding parse_hhmm
hours_minutes s h m p q = ground arith

in_range-GivesTime :
    (strict : Bool) (s : String) (h m : ℕ)
    → parse_hhmm s ≡ ok (h * 60 + m)
    → GivesTime (in_range strict s h m)
unfolding in_range
in_range-GivesTime strict s h m p t e = elim (Bool-cases (ltb 23 h)) [
  | inl late ↦ rejected-GivesTime strict _ t (rw late at e)
  | inr h_ok ↦ elim (Bool-cases (ltb 59 m)) [
    | inl late ↦ rejected-GivesTime strict _ t (rw (h_ok, late) at e)
    | inr m_ok ↦
        subst IsTime (ok-injective _ _ (rw (h_ok, m_ok) at e)) (h * 60 + m, p, ground arith)
  ]
]

checked_hhmm-GivesTime : (strict : Bool) (s : String) → GivesTime (checked_hhmm strict s)
unfolding checked_hhmm
checked_hhmm-GivesTime strict s t e =
    let (h, p, rest) = invert (int_or_raise (int_of (take 2 (codes s)))) _ t e in
    let (m, q, last) = invert (int_or_raise (int_of (drop 2 (codes s)))) _ t rest in
    in_range-GivesTime strict s h m (hours_minutes s h m p q) t last

hhmm_text-GivesTime : (strict : Bool) (s : String) → GivesTime (hhmm_text strict s)
unfolding hhmm_text
hhmm_text-GivesTime strict s t e =
    elim (Bool-cases (not (is_digits (codes s)) || not (length (codes s) == 4))) [
      | inl bad ↦ rejected-GivesTime strict _ t (rw bad at e)
      | inr good ↦ checked_hhmm-GivesTime strict s t (rw good at e)
    ]

-- If the loader gives a value for a time field, strict or not, whatever the file holds, then the field
-- is absent or the scheduler reads it as a number of minutes below 1440.
pub parse_hhmm_field-IsTime :
    (to_str : Value → String) (strict : Bool) (value : Option Value) (t : Option String)
    → parse_hhmm_field to_str strict value ≡ ok t
    → IsTime t
unfolding parse_hhmm_field
parse_hhmm_field-IsTime to_str strict none t e = subst IsTime (ok-injective _ _ e) tt
parse_hhmm_field-IsTime to_str strict (some null) t e = subst IsTime (ok-injective _ _ e) tt
parse_hhmm_field-IsTime to_str strict (some value) t e =
    hhmm_text-GivesTime strict (zfill 4 (to_str value)) t e

window_from-Returns : (t : Option String) (now : ℕ) → IsTime t → Returns (window_from t now)
unfolding window_from
window_from-Returns none now h = (execute, refl)
window_from-Returns (some s) now (k, p, l) = >>=-Returns (parse_hhmm s) _ (k, p) (λ n _. (_, refl))

window_till-Returns : (t : Option String) (now : ℕ) → IsTime t → Returns (window_till t now)
unfolding window_till
window_till-Returns none now h = (execute, refl)
window_till-Returns (some s) now (k, p, l) = >>=-Returns (parse_hhmm s) _ (k, p) (λ n _. (_, refl))

otherwise-Returns :
    (d : Decision) (next : Result Decision) → Returns next → Returns (otherwise d next)
otherwise-Returns execute next r = r
otherwise-Returns (skip reason) next r = (skip reason, refl)

-- Two times are all that `should_execute` needs to decide.
pub should_execute-IsTime :
    (m : MetricDef) (now run_counter count : ℕ) (dry_run : Bool)
    → IsTime m.time_window_from
    → IsTime m.time_window_till
    → Returns (should_execute m now run_counter count dry_run)
unfolding should_execute
should_execute-IsTime m now run_counter count true p q = (execute, refl)
should_execute-IsTime m now run_counter count false p q =
    >>=-Returns (window_from m.time_window_from now) _
      (window_from-Returns m.time_window_from now p)
      λ opened _. otherwise-Returns opened _ (
        >>=-Returns (window_till m.time_window_till now) _
          (window_till-Returns m.time_window_till now q)
          λ closed _. otherwise-Returns closed _ (
            otherwise-Returns (quota m.max_executions_per_day count) _
              (cadence m.run_frequency run_counter, refl)))

-- `should_execute` raises nothing for a metric whose two time fields came through the loader: it
-- decides, for every clock, counter and count, in a dry run or not.
pub should_execute-Returns :
    (to_str : Value → String) (strict : Bool) (from till : Option Value) (m : MetricDef)
    (now run_counter count : ℕ) (dry_run : Bool)
    → parse_hhmm_field to_str strict from ≡ ok m.time_window_from
    → parse_hhmm_field to_str strict till ≡ ok m.time_window_till
    → Returns (should_execute m now run_counter count dry_run)
should_execute-Returns to_str strict from till m now run_counter count dry_run p q =
    should_execute-IsTime m now run_counter count dry_run
      (parse_hhmm_field-IsTime to_str strict from m.time_window_from p)
      (parse_hhmm_field-IsTime to_str strict till m.time_window_till q)

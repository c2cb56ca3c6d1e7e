-- ===== src/Main/Codes.antt =====
-- main.py: the exit codes of the part of `run` under the lock.
use zabbig.Prelude.{
  ℕ, ◌≤◌, ◌≡◌, refl, Option, none, some, List, [], ◌∷◌, string_eq, Result, ok, err, ok-injective,
  arith,
}
use mathlib.Core.Path.{subst}
use zabbig.Prelude.State.{Action, and_then, lift, ◌>>=◌}
use zabbig.Models.{ClientConfig, MetricDef, MetricResult, RunSummary}
use zabbig.Runner.{World}
use zabbig.Sender.{Network}
use zabbig.Main.{run_with_timeout, Clock, begin_run, select}
use zabbig.Main.Cycle.{run_async-ExitFits}
use zabbig.StateManager.{ScheduleState, load_schedule_state}
use zabbig.Main.Run.{
  Inputs, Machine, on_net, save, save_schedule, nothing_scheduled, run_scheduled, run_chosen,
  under_lock,
}

-- What holds of a value, if there is one.
abbrev pub AllOk : {A : Type 0} → (A → Type 0) → Result A → Type 0
AllOk P (ok a) = P a
AllOk P (err e) = Unit

module _ {A : Type 0} (P : A → Type 0) where
  AllOk-value : (r : Result A) → ((a : A) → r ≡ ok a → P a) → AllOk P r
  AllOk-value (ok a) h = h a refl
  AllOk-value (err e) h = tt

  AllOk-ok : (r : Result A) (a : A) → AllOk P r → r ≡ ok a → P a
  AllOk-ok (ok b) a h e = subst P (ok-injective b a e) h
  AllOk-ok (err x) a h e = cc

  and_then-AllOk :
      {S B : Type 0} (Q : B → Type 0) (rest : A → Action S B) (r : Result A) (s : S)
      → AllOk P r
      → ((a : A) (s' : S) → P a → AllOk Q (rest a s').0)
      → AllOk Q (and_then r rest s).0
  and_then-AllOk Q rest (ok a) s h k = k a s h
  and_then-AllOk Q rest (err e) s h k = tt

AllOk-any : {A : Type 0} (r : Result A) → AllOk (λ _. Unit {0}) r
AllOk-any (ok a) = tt
AllOk-any (err e) = tt

run_with_timeout-code :
    (net : Network) (config : ClientConfig) (cut : Option (RunSummary × net.State)) (w : World)
    (output : List MetricResult → Result (Unit {0})) (clock : Clock) (ms : List MetricDef)
    (s : RunSummary) (st : net.State)
    → AllOk (λ r. r.1 ≤ 2) (run_with_timeout net config cut w output clock ms s st).0
unfolding run_with_timeout
run_with_timeout-code net config none w output clock ms s st =
    AllOk-value (λ r. r.1 ≤ 2) _
      (λ r e.
        let (_, _, low) = run_async-ExitFits net config w output clock ms s st r e in
        omega (arith, low))
run_with_timeout-code net config (some (cut, s')) w output clock ms s st = omega arith

module _ (net : Network) (inputs : Inputs net) (config : ClientConfig) where
  run_scheduled-code :
      (state : ScheduleState) (scheduled : List MetricDef) (summary : RunSummary) (m : Machine net)
      → AllOk (λ r. r.1 ≤ 2) (run_scheduled net inputs config state scheduled summary m).0
  unfolding run_scheduled on_net
  run_scheduled-code state scheduled summary m =
      and_then-AllOk (λ r. r.1 ≤ 2) (λ r. r.1 ≤ 2) _ _ _
        (run_with_timeout-code net config inputs.cut _ inputs.output inputs.clock scheduled summary
          m.outside)
        (λ r m' low.
          and_then-AllOk (λ _. Unit {0}) (λ r'. r'.1 ≤ 2) _ (save_schedule net inputs config _ m').0
            _ (AllOk-any _) (λ _ _ _. low))

  nothing_scheduled-code :
      (state : ScheduleState) (summary : RunSummary) (m : Machine net)
      → AllOk (λ r. r.1 ≤ 2) (nothing_scheduled net inputs config state summary m).0
  unfolding nothing_scheduled
  nothing_scheduled-code state summary m =
      and_then-AllOk (λ _. Unit {0}) (λ r. r.1 ≤ 2) _ (save_schedule net inputs config state m).0 _
        (AllOk-any _)
        (λ _ m' _.
          and_then-AllOk (λ _. Unit {0}) (λ r. r.1 ≤ 2) _ (save net inputs config summary m').0 _
            (AllOk-any _) (λ _ _ _. omega arith))

  run_chosen-code :
      (state : ScheduleState) (summary : RunSummary) (chosen : List MetricDef × ℕ) (m : Machine net)
      → AllOk (λ r. r.1 ≤ 2) (run_chosen net inputs config state summary chosen m).0
  unfolding run_chosen
  run_chosen-code state summary ([], n) m = nothing_scheduled-code state _ m
  run_chosen-code state summary (c ∷ cs, n) m =
      and_then-AllOk (λ r. r.1 ≤ 2) (λ r. r.1 ≤ 2) _
        (run_scheduled net inputs config state (c ∷ cs) _ m).0 _
        (run_scheduled-code state (c ∷ cs) _ m) (λ r m' low. low)

  pub under_lock-code :
      (ms : List MetricDef) (summary : RunSummary) (m : Machine net)
      → AllOk (λ r. r.1 ≤ 2) (under_lock net inputs config ms summary m).0
  unfolding under_lock
  under_lock-code ms summary m = by_state (load_schedule_state m.disk)
    where
      by_choice :
          (state : ScheduleState) (r : Result (List MetricDef × ℕ))
          → AllOk (λ r. r.1 ≤ 2) (and_then r (run_chosen net inputs config state summary) m).0
      by_choice state (ok chosen) = run_chosen-code state summary chosen m
      by_choice state (err e) = tt

      by_state :
          (r : Result ScheduleState)
          → AllOk
              (λ r. r.1 ≤ 2)
              (and_then r
                (λ stored.
                  let state = begin_run inputs.today stored in
                  lift (select state inputs.now_minutes config.runtime.dry_run ms)
                  >>= run_chosen net inputs config state summary)
                m).0
      by_state (ok stored) =
          by_choice (begin_run inputs.today stored)
            (select (begin_run inputs.today stored) inputs.now_minutes config.runtime.dry_run ms)
      by_state (err e) = tt

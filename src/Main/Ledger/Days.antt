-- ===== src/Main/Ledger/Days.antt =====
-- main.py: the successful runs of one day, one after the other, and how often each metric is executed.
use mathlib.Core.Path.{subst}
use zabbig.Prelude.{
  ℕ, zero, suc, ◌+◌, ◌≡◌, ◌≢◌, refl, sym, ap, ◌∙◌, String, Bool, true, false, Bool-cases, inl, inr,
  Option, none, some, List, [], ◌∷◌, All, keep, length, ◌==◌, string_eq, if◌then◌else◌, Result, ok,
  err, arith,
}
use zabbig.Prelude.Float.{ℤ, pos, negsuc}
use zabbig.Models.{ClientConfig, MetricDef, RunSummary}
use zabbig.Sender.{Network}
use zabbig.Main.Schedule.{UniqueIds, times}
use zabbig.Main.Run.{Inputs, Machine, locked}
use zabbig.Main.Ledger.{Ledger, view, opened_on, is_due, entered, recorded}
use zabbig.Main.Ledger.Chosen.{is_open, open_runs, capped, is_due-is_open, capped-step, times-keep}
use zabbig.Main.Ledger.Refines.{Leaves, locked-Leaves}

-- The ledger after the runs of a day at some times: every metric has been executed in the runs that it
-- was open in, up to its quota.
abbrev pub IsTally : String → List MetricDef → List ℕ → Ledger → Type 0
IsTally today ms times l =
    (l.date ≡ some today)
    × (l.runs ≡ length times)
    × All (λ m. l.executions m.id ≡ capped m.max_executions_per_day (open_runs times m)) ms

module _ (today : String) (ms : List MetricDef) (unique : UniqueIds ms) where
  -- A run at the end of the day so far.
  IsTally-entered :
      (now : ℕ) (earlier : List ℕ) (l : Ledger)
      → l.date ≡ some today
      → l.runs ≡ length earlier + 1
      → All (λ m. l.executions m.id ≡ capped m.max_executions_per_day (open_runs earlier m)) ms
      → IsTally today ms (now ∷ earlier) (entered now ms l)
  IsTally-entered now earlier l d n h =
      (d, ground arith, more ms h (times-keep (is_due now l) ms unique))
    where
      one_more :
          (m : MetricDef)
          → l.executions m.id ≡ capped m.max_executions_per_day (open_runs earlier m)
          → times m.id (keep (is_due now l) ms) ≡ (if is_due now l m then 1 else 0)
          → (entered now ms l).executions m.id
            ≡ capped m.max_executions_per_day (open_runs (now ∷ earlier) m)
      one_more m e t =
          ap (λ (k : ℕ). l.executions m.id + k) t
          ∙ ap (λ (b : Bool). l.executions m.id + (if b then 1 else 0))
              (is_due-is_open now (l.executions m.id) l.runs m)
          ∙ rw (e, n)
              (capped-step m.max_executions_per_day (open_runs earlier m)
                (is_open now (length earlier + 1) m))

      more :
          (ns : List MetricDef)
          → All (λ m. l.executions m.id ≡ capped m.max_executions_per_day (open_runs earlier m)) ns
          → All (λ m. times m.id (keep (is_due now l) ms) ≡ (if is_due now l m then 1 else 0)) ns
          → All
              (λ m.
                (entered now ms l).executions m.id
                ≡ capped m.max_executions_per_day (open_runs (now ∷ earlier) m))
              ns
      more [] h t = tt
      more (m ∷ ns) (h, hs) (t, ts) = (one_more m h t, more ns hs ts)

  capped-zero : (q : Option ℤ) → capped q 0 ≡ 0
  capped-zero none = refl
  capped-zero (some (pos zero)) = refl
  capped-zero (some (pos (suc k))) = ground arith
  capped-zero (some (negsuc k)) = refl

  All-capped-zero :
      (ns : List MetricDef) → All (λ m. 0 ≡ capped m.max_executions_per_day (open_runs [] m)) ns
  All-capped-zero [] = tt
  All-capped-zero (m ∷ ns) = (sym (capped-zero m.max_executions_per_day), All-capped-zero ns)

  -- The first run of the day.
  recorded-first :
      (now : ℕ) (date : Option String) (runs : ℕ) (executions : String → ℕ)
      → date ≢ some today
      → IsTally today ms (now ∷ []) (entered now ms (opened_on today date runs executions))
  recorded-first now none runs executions new =
      IsTally-entered now [] (opened_on today none runs executions) refl refl (All-capped-zero ms)
  recorded-first now (some date) runs executions new = elim (Bool-cases (date == today)) [
    | inl same ↦ absurd (new (ground (arith, same)))
    | inr other ↦ rw other (
        IsTally-entered now [] (opened_on today none runs executions) refl refl
          (All-capped-zero ms))
  ]

  -- A later run of the day.
  recorded-later :
      (now : ℕ) (earlier : List ℕ) (date : Option String) (runs : ℕ) (executions : String → ℕ)
      → IsTally today ms earlier (record { date = date; runs = runs; executions = executions })
      → IsTally today ms (now ∷ earlier) (entered now ms (opened_on today date runs executions))
  recorded-later now earlier none runs executions (d, n, h) = cc
  recorded-later now earlier (some date) runs executions (d, n, h) =
      elim (Bool-cases (date == today)) [
        | inr other ↦ absurd (ground (arith, other, d))
        | inl same ↦ rw same (
            IsTally-entered now earlier
              (record { date = some date; runs = runs + 1; executions = executions }) d
              (ground (arith, n)) h)
      ]

-- Runs of one day that return, one after the other, with the machine before the first and after the
-- last of them. Their times are listed with the last first.
pub data Runs (net : Network) (config : ClientConfig) (ms : List MetricDef) (today : String)
    : List ℕ → Machine net → Machine net → Type 0 where
  start : (m : Machine net) → Runs net config ms today [] m m
  next :
      (earlier : List ℕ) (m m' : Machine net)
      → Runs net config ms today earlier m m'
      → (inputs : Inputs net) (summary : RunSummary) (r : RunSummary × ℕ × Bool)
      → inputs.today ≡ today
      → m'.disk.dir_ok ≡ true
      → m'.disk.write_ok ≡ true
      → (locked net inputs config ms summary m').0 ≡ ok r
      → Runs net config ms today
          (inputs.now_minutes ∷ earlier)
          m
          (locked net inputs config ms summary m').1

module _ (net : Network) (config : ClientConfig) (ms : List MetricDef) (today : String)
    (wet : config.runtime.dry_run ≡ false) (unique : UniqueIds ms) where
  locked-recorded :
      (inputs : Inputs net) (summary : RunSummary) (m : Machine net) (r : RunSummary × ℕ × Bool)
      → inputs.today ≡ today
      → m.disk.dir_ok ≡ true
      → m.disk.write_ok ≡ true
      → (locked net inputs config ms summary m).0 ≡ ok r
      → view (locked net inputs config ms summary m).1.disk
        ≡ recorded today inputs.now_minutes ms (view m.disk)
  locked-recorded inputs summary m r t d w e =
      by_result (locked net inputs config ms summary m).0 e
        (locked-Leaves net inputs config ms wet summary m d w)
    where
      by_result :
          (x : Result (RunSummary × ℕ × Bool))
          → x ≡ ok r
          → Leaves net inputs config ms wet
              (view m.disk)
              (recorded inputs.today inputs.now_minutes ms (view m.disk))
              x
              (locked net inputs config ms summary m).1
          → view (locked net inputs config ms summary m).1.disk
            ≡ recorded today inputs.now_minutes ms (view m.disk)
      by_result (ok a) e h =
          h ∙ ap (λ (s : String). recorded s inputs.now_minutes ms (view m.disk)) t
      by_result (err x) e h = cc

  abbrev SoFar : List ℕ → Ledger → Ledger → Type 0
  SoFar [] before l = before ≡ l
  SoFar (now ∷ earlier) before l = IsTally today ms (now ∷ earlier) l

  SoFar-recorded :
      (now : ℕ) (earlier : List ℕ) (before l : Ledger)
      → before.date ≢ some today
      → SoFar earlier before l
      → IsTally today ms (now ∷ earlier) (recorded today now ms l)
  SoFar-recorded now [] before l new e =
      recorded-first today ms unique now l.date l.runs l.executions
        (subst (λ (x : Ledger). x.date ≢ some today) e new)
  SoFar-recorded now (before_now ∷ earlier) before l new h =
      recorded-later today ms unique now (before_now ∷ earlier) l.date l.runs l.executions h

  Runs-SoFar :
      (times : List ℕ) (m m' : Machine net)
      → (view m.disk).date ≢ some today
      → Runs net config ms today times m m'
      → SoFar times (view m.disk) (view m'.disk)
  Runs-SoFar [] m _ new (start _) = refl
  Runs-SoFar (_ ∷ _) _ _ new (next earlier m m' runs inputs summary r t d w e) =
      subst (IsTally today ms (inputs.now_minutes ∷ earlier))
        (sym (locked-recorded inputs summary m' r t d w e))
        (SoFar-recorded inputs.now_minutes earlier (view m.disk) (view m'.disk) new
          (Runs-SoFar earlier m m' new runs))

  -- After a day of one or more runs that return, outside a dry run and with a writable state directory,
  -- the schedule has counted all of them, and every metric has been executed in each run in which its
  -- window was open and its frequency due, until its daily quota was reached: exactly the smaller of
  -- the two numbers. The ids of the metrics are unique and the day before the first run is another. A
  -- window is open from its start to before its end on one day, and never if its start is not before its
  -- end.
  pub Runs-IsTally :
      (now : ℕ) (earlier : List ℕ) (m m' : Machine net)
      → (view m.disk).date ≢ some today
      → Runs net config ms today (now ∷ earlier) m m'
      → IsTally today ms (now ∷ earlier) (view m'.disk)
  Runs-IsTally now earlier m m' new runs = Runs-SoFar (now ∷ earlier) m m' new runs

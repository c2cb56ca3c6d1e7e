-- ===== src/Main/Schedule.antt =====
-- main.py, the schedule of a day: executions are counted per metric, and quotas hold.
use mathlib.Core.Path.{subst}
use zabbig.Prelude.{
  ℕ, zero, suc, ◌+◌, ◌≤◌, ◌≡◌, ◌≢◌, ◌⊎◌, inl, inr, refl, false, String, Option, none, some, List,
  [], ◌∷◌, length, keep, All, UniqueBy, ◌==◌, string_eq, if◌then◌else◌, Result, ok, err, arith,
}
use zabbig.Prelude.Dict.{Dict, insert, get_or, lookup-insert}
use zabbig.Prelude.Float.{ℤ, pos, negsuc}
use zabbig.Models.{MetricDef}
use zabbig.Scheduler.{Decision, execute, skip, should_execute}
use zabbig.Scheduler.Guards.{IsUnderQuota}
use zabbig.StateManager.{ScheduleState}
use zabbig.Main.{add_decision, select, count_executions}

get_or-insert :
    (j k : String) (v : ℕ) (d : Dict ℕ)
    → get_or j (insert k v d) 0 ≡ (if j == k then v else get_or j d 0)
unfolding get_or
get_or-insert j k v d = ground (arith, lookup-insert j k v d)

-- How often a metric id occurs.
abbrev pub times : String → List MetricDef → ℕ
times j ms = length (keep (λ m. j == m.id) ms)

-- count_executions adds to every count the number of scheduled metrics with that id.
pub count_executions-times :
    (j : String) (ms : List MetricDef) (counts : Dict ℕ)
    → get_or j (count_executions ms counts) 0 ≡ get_or j counts 0 + times j ms
unfolding count_executions keep
count_executions-times j [] counts = omega arith
count_executions-times j (m ∷ ms) counts = ground (
  arith,
  count_executions-times j ms (insert m.id (get_or m.id counts 0 + 1) counts),
  get_or-insert j m.id (get_or m.id counts 0 + 1) counts,
)

-- No two metrics have the same id.
abbrev pub UniqueIds : List MetricDef → Type 0
UniqueIds ms = UniqueBy (λ (m : MetricDef). m.id) ms

abbrev pub FitsQuota : Option ℤ → ℕ → Type 0
FitsQuota (some (pos zero)) n = Unit
FitsQuota (some (pos (suc k))) n = n ≤ suc k
FitsQuota _ n = Unit

-- The metric has run at most as often as its quota allows, if it has one.
abbrev pub IsWithin : Dict ℕ → MetricDef → Type 0
IsWithin counts m = FitsQuota m.max_executions_per_day (get_or m.id counts 0)

pub FitsQuota-suc : (q : Option ℤ) (n : ℕ) → IsUnderQuota q n → FitsQuota q (n + 1)
FitsQuota-suc none n h = tt
FitsQuota-suc (some (pos zero)) n h = tt
FitsQuota-suc (some (pos (suc k))) n h = ground arith
FitsQuota-suc (some (negsuc k)) n h = tt

pub FitsQuota-zero : (q : Option ℤ) → FitsQuota q 0
FitsQuota-zero none = tt
FitsQuota-zero (some (pos zero)) = tt
FitsQuota-zero (some (pos (suc k))) = omega arith
FitsQuota-zero (some (negsuc k)) = tt

abbrev step_result :
    MetricDef → Result Decision → Result (List MetricDef × ℕ) → Result (List MetricDef × ℕ)
step_result m d r = elim d [
  | ok decision ↦ elim r [ ok r' ↦ ok (add_decision decision m r') | err e ↦ err e ]
  | err e ↦ err e
]

-- What a successful step of the loop has done.
pub joined :
    (m : MetricDef) (d : Result Decision) (r : Result (List MetricDef × ℕ)) (x : List MetricDef × ℕ)
    → step_result m d r ≡ ok x
    → (d' : Decision) × (r' : List MetricDef × ℕ) × (d ≡ ok d')
      × (r ≡ ok r')
      × (add_decision d' m r' ≡ x)
joined m (ok d) (ok r) x e = (d, r, refl, refl, ground arith)
joined m (ok d) (err f) x e = cc
joined m (err f) r x e = cc

module _ (state : ScheduleState) (now : ℕ) where
  abbrev pub decide : MetricDef → Result Decision
  decide m = should_execute m now state.run_counter (get_or m.id state.metrics 0) false

  -- A metric of the list is scheduled once, after `should_execute` has agreed, or not at all.
  abbrev pub OnceIfDue : List MetricDef → MetricDef → Type 0
  OnceIfDue scheduled m =
      (times m.id scheduled ≡ 0) ⊎ ((times m.id scheduled ≡ 1) × (decide m ≡ ok execute))

  -- An id that no metric of the list has is not scheduled.
  times-select :
      (j : String) (ms : List MetricDef) (r : List MetricDef × ℕ)
      → All (λ n. n.id ≢ j) ms
      → select state now false ms ≡ ok r
      → times j r.0 ≡ 0
  unfolding select keep add_decision
  times-select j [] r h e = ground arith
  times-select j (m ∷ ms) r (ne, h) e =
      let (d, r', _, q, a) = joined m (decide m) (select state now false ms) r e in
      ground (arith, times-select j ms r' h q)

  OnceIfDue-later :
      (d : Decision) (m n : MetricDef) (r : List MetricDef × ℕ)
      → n.id ≢ m.id
      → OnceIfDue r.0 n
      → OnceIfDue (add_decision d m r).0 n
  unfolding keep add_decision
  OnceIfDue-later execute m n r ne h = ground arith
  OnceIfDue-later (skip reason) m n r ne h = h

  All-OnceIfDue-later :
      (d : Decision) (m : MetricDef) (ms : List MetricDef) (r : List MetricDef × ℕ)
      → All (λ n. n.id ≢ m.id) ms
      → All (OnceIfDue r.0) ms
      → All (OnceIfDue (add_decision d m r).0) ms
  All-OnceIfDue-later d m [] r ne h = tt
  All-OnceIfDue-later d m (n ∷ ms) r (ne, nes) (h, hs) =
      (OnceIfDue-later d m n r ne h, All-OnceIfDue-later d m ms r nes hs)

  OnceIfDue-now :
      (d : Decision) (m : MetricDef) (r : List MetricDef × ℕ)
      → decide m ≡ ok d
      → times m.id r.0 ≡ 0
      → OnceIfDue (add_decision d m r).0 m
  unfolding keep add_decision
  OnceIfDue-now execute m r e z = inr (ground arith, e)
  OnceIfDue-now (skip reason) m r e z = inl z

  pub select-OnceIfDue :
      (ms : List MetricDef) (r : List MetricDef × ℕ)
      → UniqueIds ms
      → select state now false ms ≡ ok r
      → All (OnceIfDue r.0) ms
  unfolding select
  select-OnceIfDue [] r u e = tt
  select-OnceIfDue (m ∷ ms) r (ne, u) e =
      let (d, r', p, q, a) = joined m (decide m) (select state now false ms) r e in
      subst (λ (x : List MetricDef × ℕ). All (OnceIfDue x.0) (m ∷ ms)) a
        (
          OnceIfDue-now d m r' p (times-select m.id ms r' ne q),
          All-OnceIfDue-later d m ms r' ne (select-OnceIfDue ms r' u q),
        )

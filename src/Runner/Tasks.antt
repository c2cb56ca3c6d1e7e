-- ===== src/Runner/Tasks.antt =====
-- runner.py, `run_one` and `run_all_collectors`: every metric gets its results, whatever its
-- collector does.
use zabbig.Prelude.{
  ℕ, suc, ◌+◌, ◌≡◌, ◌≢◌, refl, ap, Bool, some, List, [], ◌∷◌, keep, length, All, Result, ok, err,
  Exc, ExcKind, cancelled_error, timeout_error, Bool-cases, inl, inr, arith,
}
use zabbig.Prelude.Dict.{lookup}
use zabbig.Prelude.Float.{Float}
use zabbig.Models.{ClientConfig, MetricDef, MetricResult, delivery_eq}
use zabbig.Registry.{get_collector}
use zabbig.Runner.{
  World, Collected, one, many, Collector, in_time, prepared, settle, settle_error, run_one, gather,
  collect_batch, run_all_collectors, immediate_metrics, batch_metrics,
}

-- The collector gives one result, or raises anything but a CancelledError.
abbrev pub IsSingle : Result Collected → Type 0
IsSingle (ok (one r)) = Unit
IsSingle (ok (many rs)) = ⊥
IsSingle (err e) = e.kind ≢ cancelled_error

module _ (w : World) (config : ClientConfig) where
  -- The collector of the metric is registered and gives one result or fails.
  abbrev pub IsServed : MetricDef → Type 0
  IsServed m =
      (c : Collector) × (lookup m.collector w.registry ≡ some c)
      × IsSingle (c (prepared w config m))

  collector-prepared : (m : MetricDef) → (prepared w config m).collector ≡ m.collector
  unfolding prepared
  collector-prepared m = ground arith

  settle_error-one :
      (now : ℕ) (m : MetricDef) (d : Float) (e : Exc) (k : ExcKind)
      → k ≢ cancelled_error
      → (x : MetricResult) × (settle_error now m d e k ≡ ok (x ∷ []))
  unfolding settle_error
  settle_error-one now m d e cancelled_error h = absurd (h refl)
  settle_error-one now m d e timeout_error h = (_, refl)
  settle_error-one now m d e _ h = (_, refl)

  settle-one :
      (now : ℕ) (m : MetricDef) (d : Float) (r : Result Collected)
      → IsSingle r
      → (x : MetricResult) × (settle now m d r ≡ ok (x ∷ []))
  unfolding settle
  settle-one now m d (ok (one r)) h = (_, refl)
  settle-one now m d (ok (many _)) h = elim h [ ]
  settle-one now m d (err e) h = settle_error-one now m d e e.kind h

  run_one-one :
      (m : MetricDef) → IsServed m → (x : MetricResult) × (run_one w config m ≡ ok (x ∷ []))
  unfolding run_one get_collector
  run_one-one m (c, found, single) =
      let (x, e) = settle-one (w.now m) (prepared w config m) (w.elapsed m) _ single in
      (x, ground (arith, collector-prepared m))

  -- Results in the order of the metrics, each the one that `run_one` gives for its metric.
  abbrev pub Each : List MetricDef → List MetricResult → Type 0
  Each [] [] = Unit
  Each (m ∷ ms) (r ∷ rs) = (run_one w config m ≡ ok (r ∷ [])) × Each ms rs
  Each _ _ = ⊥

  length-Each : (ms : List MetricDef) (rs : List MetricResult) → Each ms rs → length rs ≡ length ms
  length-Each [] [] h = refl
  length-Each (m ∷ ms) (r ∷ rs) (_, h) = ap suc (length-Each ms rs h)
  length-Each [] (r ∷ rs) h = absurd h
  length-Each (m ∷ ms) [] h = absurd h

  gather-Each :
      (ms : List MetricDef)
      → All IsServed ms
      → (rs : List MetricResult) × (gather w config ms ≡ ok rs) × Each ms rs
  unfolding gather
  gather-Each [] h = ([], refl, tt)
  gather-Each (m ∷ ms) (h, hs) =
      let (x, e) = run_one-one m h in
      let (rs, f, each) = gather-Each ms hs in (x ∷ rs, ground arith, (e, each))

  keep-IsServed :
      (test : MetricDef → Bool) (ms : List MetricDef)
      → All IsServed ms
      → All IsServed (keep test ms)
  unfolding keep
  keep-IsServed test [] h = tt
  keep-IsServed test (m ∷ ms) (h, hs) = elim (Bool-cases (test m)) [
    | inl e ↦ rw e (h, keep-IsServed test ms hs)
    | inr e ↦ rw e (keep-IsServed test ms hs)
  ]

  length-deliveries :
      (ms : List MetricDef) → length (immediate_metrics ms) + length (batch_metrics ms) ≡ length ms
  unfolding keep
  length-deliveries [] = refl
  length-deliveries (m ∷ ms) = ground (arith, length-deliveries ms)

  -- If every metric's collector is registered, and gives one result or fails in any way but by
  -- cancellation, and the batch window is kept, then no exception escapes, and each of the two lists holds,
  -- in the order of its metrics, for each immediate or batch metric the one result that `run_one` gives for
  -- that metric; together they are as many as the metrics.
  pub run_all_collectors-Each :
      (ms : List MetricDef)
      → All IsServed ms
      → w.window ≡ in_time
      → (rs : List MetricResult × List MetricResult) × (run_all_collectors w config ms ≡ ok rs)
        × Each (immediate_metrics ms) rs.0
        × Each (batch_metrics ms) rs.1
        × (length rs.0 + length rs.1 ≡ length ms)
  unfolding run_all_collectors collect_batch
  run_all_collectors-Each ms h e =
      let (i, p, each) = gather-Each (immediate_metrics ms) (keep-IsServed _ ms h) in
      let (b, q, each') = gather-Each (batch_metrics ms) (keep-IsServed _ ms h) in
      let n = length-Each (immediate_metrics ms) i each in
      let k = length-Each (batch_metrics ms) b each' in
      ((i, b), ground arith, each, each', omega (arith, n, k, length-deliveries ms))

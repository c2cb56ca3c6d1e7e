-- ===== src/Main/Quota/Loaded.antt =====
-- main.py and config_loader.py: the quotas of the metrics that the loader returns, over `run`.
use mathlib.Core.Path.{subst}
use zabbig.Prelude.{
  ℕ, ◌≡◌, ◌≢◌, refl, sym, ap, ◌∙◌, Bool, true, false, Bool-cases, inl, inr, Option, none, some,
  String, List, [], ◌∷◌, map, All, UniqueBy-keep, UniqueBy-map, All-map, length, ◌==◌, string_eq,
  Result, ok, err, Exc, ExcKind, lock_error, arith,
}
use zabbig.Prelude.State.{Action, and_then}
use zabbig.Models.{
  ClientConfig, FeaturesConfig, MetricDef, LoadedMetric, with_texts, RunSummary, fresh_summary,
}
use zabbig.Models.Dynamic.{Fields, end, field, str, same_value, Casts}
use zabbig.Config.Yaml.{ConfigFiles}
use zabbig.Config.Load.{MetricsConfig, load_metrics_config}
use zabbig.Config.Load.Unique.{Distinct, load_metrics_config-Distinct}
use zabbig.Sender.{Network}
use zabbig.Locking.{LockFile, acquire, release}
use zabbig.StateManager.{schedule_of}
use zabbig.Prelude.Dict.{Dict}
use zabbig.Main.{is_empty, enabled_metrics, with_databases}
use zabbig.Main.Schedule.{UniqueIds, IsWithin}
use zabbig.Main.Run.{
  Inputs, Machine, with_flags, inject, leave_lock, locked, under_lock, after_lock, fatal,
  run_metrics, run_enabled, run,
}
use zabbig.Main.Quota.{
  Quotas, Keeps, on_net-Keeps, save-Keeps, >>=-Keeps, lift-Keeps, under_lock-Quotas,
}

-- Texts that differ as ids of loaded metrics differ as ids.
id-differs :
    (m : MetricDef) (ns : List MetricDef)
    → All (λ (n : LoadedMetric). same_value n.id (str m.id) ≡ false) (map with_texts ns)
    → All (λ (n : MetricDef). n.id ≢ m.id) ns
unfolding same_value
id-differs m [] h = tt
id-differs m (n ∷ ns) (h, hs) = ((λ same. ground (arith, h, same)), id-differs m ns hs)

Distinct-UniqueIds :
    (ms : List MetricDef) → Distinct (λ (m : LoadedMetric). m.id) (map with_texts ms) → UniqueIds ms
Distinct-UniqueIds [] h = tt
Distinct-UniqueIds (m ∷ ms) (others, h) = (id-differs m ms others, Distinct-UniqueIds ms h)

with_databases-IsWithin :
    (registry : Fields) (counts : Dict ℕ) (m : MetricDef)
    → IsWithin counts m
    → IsWithin counts (with_databases registry m)
unfolding with_databases
with_databases-IsWithin registry counts m h = elim (Bool-cases (m.collector == "database")) [
  | inl database ↦ rw database h
  | inr other ↦ rw other h
]

IsWithin-with_databases :
    (registry : Fields) (counts : Dict ℕ) (ms : List MetricDef)
    → All (IsWithin counts) (map (with_databases registry) ms)
    → All (IsWithin counts) ms
unfolding with_databases
IsWithin-with_databases registry counts [] h = tt
IsWithin-with_databases registry counts (m ∷ ms) (h, hs) = (
  elim (Bool-cases (m.collector == "database")) [
    | inl database ↦ rw database at h
    | inr other ↦ rw other at h
  ],
  IsWithin-with_databases registry counts ms hs,
)

with_databases-id : (registry : Fields) (m : MetricDef) → (with_databases registry m).id ≡ m.id
unfolding with_databases
with_databases-id registry m = ground arith

inject-UniqueIds :
    (registry : Fields) (ms : List MetricDef) → UniqueIds ms → UniqueIds (inject registry ms)
unfolding inject
inject-UniqueIds end ms u = u
inject-UniqueIds (field k v rest) ms u =
    UniqueBy-map (λ (m : MetricDef). m.id) (with_databases (field k v rest))
      (with_databases-id (field k v rest)) ms u

enabled_metrics-UniqueIds :
    (features : FeaturesConfig) (ms : List MetricDef)
    → UniqueIds ms
    → UniqueIds (enabled_metrics features ms)
unfolding enabled_metrics
enabled_metrics-UniqueIds features ms u = elim (Bool-cases features.skip_disabled_metrics) [
  | inl skip ↦ rw skip (UniqueBy-keep (λ (m : MetricDef). m.id) (λ (m : MetricDef). m.enabled) ms u)
  | inr all ↦ rw all u
]

module _ (net : Network) (inputs : Inputs net) (config : ClientConfig) (ms : List MetricDef) where
  abbrev escaped : ExcKind → Exc → Machine net → Result ℕ × Machine net
  escaped kind e m = elim kind [ lock_error ↦ (ok 2, m) | _ ↦ (err e, m) ]

  escaped-Keeps :
      (kind : ExcKind) (e : Exc) (m : Machine net)
      → Quotas ms m.disk
      → Quotas ms (escaped kind e m).1.disk
  escaped-Keeps lock_error e m h = h
  escaped-Keeps _ e m h = h

  after_lock-Keeps :
      (result : Result (RunSummary × ℕ × Bool)) → Keeps net ms (after_lock net inputs config result)
  unfolding after_lock
  after_lock-Keeps (ok (summary, code, true)) = record { apply = λ m h. h }
  after_lock-Keeps (ok (summary, code, false)) =
      >>=-Keeps net ms (save-Keeps net inputs config ms summary) (λ _. lift-Keeps net ms (ok code))
  after_lock-Keeps (err e) = record { apply = escaped-Keeps e.kind e }

  fatal-Keeps : Keeps net ms (fatal net inputs config)
  unfolding fatal
  fatal-Keeps =
      >>=-Keeps net ms (on_net-Keeps net inputs config ms _) (λ _. lift-Keeps net ms (ok 2))

  abbrev entered_or_not :
      {A : Type 0}
      → Result (Unit {0})
      → Result A × Machine net
      → Machine net
      → Result A × Machine net
  entered_or_not entered inside outside = elim entered [ ok _ ↦ inside | err e ↦ (err e, outside) ]

  entered_or_not-Quotas :
      {A : Type 0} (entered : Result (Unit {0})) (inside : Result A × Machine net)
      (outside : Machine net)
      → Quotas ms inside.1.disk
      → Quotas ms outside.disk
      → Quotas ms (entered_or_not entered inside outside).1.disk
  entered_or_not-Quotas (ok _) inside outside h k = h
  entered_or_not-Quotas (err e) inside outside h k = k

  leave_lock-Quotas :
      {A : Type 0} (x : Result A × Machine net)
      → Quotas ms x.1.disk
      → Quotas ms (leave_lock net inputs x).1.disk
  unfolding leave_lock
  leave_lock-Quotas x h = released (release inputs.system x.1.lock)
    where
      released :
          (y : Result (Unit {0}) × LockFile)
          → Quotas ms (and_then y.0 (λ _ m. (x.0, m)) (record x.1 { lock = y.1 })).1.disk
      released (ok u, lock) = h
      released (err e, lock) = h

  locked-Quotas :
      (summary : RunSummary) (m : Machine net)
      → UniqueIds ms
      → Quotas ms m.disk
      → Quotas ms (locked net inputs config ms summary m).1.disk
  unfolding locked
  locked-Quotas summary m u h =
      let (entered, lock) = acquire 2 inputs.system m.lock in
      let inside = under_lock net inputs config ms summary (record m { lock = lock }) in
      entered_or_not-Quotas entered (leave_lock net inputs inside) (record m { lock = lock })
        (leave_lock-Quotas inside
          (under_lock-Quotas net inputs config ms summary (record m { lock = lock }) u h))
        h

  run_metrics-Quotas :
      (all_metrics : List MetricDef) (m : Machine net)
      → UniqueIds ms
      → Quotas ms m.disk
      → Quotas ms (run_metrics net inputs config all_metrics ms m).1.disk
  unfolding run_metrics
  run_metrics-Quotas all_metrics m u h = elim (Bool-cases (is_empty ms)) [
    | inl empty ↦ rw empty h
    | inr filled ↦
        let summary : RunSummary = record fresh_summary {
          total_configured = length all_metrics;
          enabled = length ms;
        } in
        let r = locked net inputs config ms summary m in
        rw filled ((after_lock-Keeps r.0).apply r.1 (locked-Quotas summary m u h))
  ]

module _ (net : Network) (inputs : Inputs net) (config : ClientConfig) where
  -- The path and the connection cache of the databases leave the ids and the quotas alone.
  inject-Quotas :
      (registry : Fields) (ms : List MetricDef) (m : Machine net)
      → Quotas ms m.disk
      → Quotas (inject registry ms) m.disk
  unfolding inject
  inject-Quotas end ms m h = h
  inject-Quotas (field k v rest) ms m h =
      All-map (IsWithin (schedule_of m.disk.schedule).metrics) (with_databases (field k v rest))
        (with_databases-IsWithin (field k v rest) (schedule_of m.disk.schedule).metrics) ms h

  uninject-Quotas :
      (registry : Fields) (ms : List MetricDef) (m : Machine net)
      → Quotas (inject registry ms) m.disk
      → Quotas ms m.disk
  unfolding inject
  uninject-Quotas end ms m h = h
  uninject-Quotas (field k v rest) ms m h =
      IsWithin-with_databases (field k v rest) (schedule_of m.disk.schedule).metrics ms h

  abbrev with_registry : List MetricDef → List MetricDef → Option Fields → Action (Machine net) ℕ
  with_registry ms all_metrics registry = elim registry [
    | none ↦ fatal net inputs config
    | some fields ↦ run_metrics net inputs config all_metrics (inject fields ms)
  ]

  with_registry-Keeps :
      (ms all_metrics : List MetricDef) (registry : Option Fields)
      → UniqueIds ms
      → Keeps net ms (with_registry ms all_metrics registry)
  with_registry-Keeps ms all_metrics none u = fatal-Keeps net inputs config ms
  with_registry-Keeps ms all_metrics (some fields) u = record {
    apply = λ m h.
        uninject-Quotas fields ms (run_metrics net inputs config all_metrics (inject fields ms) m).1
          (run_metrics-Quotas net inputs config (inject fields ms) all_metrics m
            (inject-UniqueIds fields ms u) (inject-Quotas fields ms m h));
  }

  run_enabled-Keeps :
      (all_metrics : List MetricDef)
      → UniqueIds (enabled_metrics config.features all_metrics)
      → Keeps net
          (enabled_metrics config.features all_metrics)
          (run_enabled net inputs config all_metrics)
  unfolding run_enabled
  run_enabled-Keeps all_metrics u =
      let ms = enabled_metrics config.features all_metrics in
      >>=-Keeps net ms (lift-Keeps net ms _)
        (λ registry. with_registry-Keeps ms all_metrics registry u)

module _ (net : Network) (inputs : Inputs net) where
  abbrev with_metrics : ClientConfig → Result (List MetricDef) → Action (Machine net) ℕ
  with_metrics config r m = elim r [
    | err e ↦ fatal net inputs config m
    | ok all_metrics ↦ run_enabled net inputs config all_metrics m
  ]

  abbrev with_config : Result ClientConfig → Action (Machine net) ℕ
  unfolding with_flags
  with_config r m = elim r [
    | err e ↦ (ok 2, m)
    | ok config ↦
        with_metrics (with_flags inputs.dry_run inputs.log_level_override inputs.upper config)
          (inputs.metrics_config config.features.strict_config_validation) m
  ]

  run-with_config : (m : Machine net) → with_config inputs.client_config m ≡ run net inputs m
  unfolding run with_flags
  run-with_config m = refl

-- One whole invocation with the metrics of a strict load, if their ids and keys are texts: if every enabled
-- metric is within its daily quota by schedule.json, then so it is afterwards, whatever the databases, the
-- lock, the collectors, the network and the disk do. That no id occurs twice is not assumed: the load has
-- checked it.
pub run-Quotas :
    (net : Network) (inputs : Inputs net) (c : Casts) (files : ConfigFiles) (path : String)
    (config : ClientConfig) (loaded : MetricsConfig) (metrics : List MetricDef)
    → inputs.client_config ≡ ok config
    → config.features.strict_config_validation ≡ true
    → load_metrics_config c true files path ≡ ok loaded
    → loaded.metrics ≡ map with_texts metrics
    → inputs.metrics_config true ≡ ok metrics
    → (m : Machine net) → Quotas (enabled_metrics config.features metrics) m.disk
    → Quotas (enabled_metrics config.features metrics) (run net inputs m).1.disk
unfolding with_flags
run-Quotas net inputs c files path config loaded metrics has strict loads texts given m h =
    let ms = enabled_metrics config.features metrics in
    let flags = with_flags inputs.dry_run inputs.log_level_override inputs.upper config in
    let distinct =
      subst (Distinct (λ (n : LoadedMetric). n.id)) texts
        (load_metrics_config-Distinct c files path loaded loads).0 in
    let unique =
      enabled_metrics-UniqueIds config.features metrics (Distinct-UniqueIds metrics distinct) in
    let read : inputs.metrics_config config.features.strict_config_validation ≡ ok metrics =
      ap inputs.metrics_config strict ∙ given in
    subst (Quotas ms)
      (ap (λ (r : Result (List MetricDef)). (with_metrics net inputs flags r m).1.disk) (sym read)
        ∙ ap (λ (r : Result ClientConfig). (with_config net inputs r m).1.disk) (sym has)
        ∙ ap (λ (x : Result ℕ × Machine net). x.1.disk) (run-with_config net inputs m))
      ((run_enabled-Keeps net inputs flags metrics unique).apply m h)

-- ===== src/Config/Load/Unique.antt =====
-- config_loader.py, `seen_ids` and `seen_keys`: no metric id and no Zabbix key occurs twice.
use zabbig.Prelude.{
  ◌≡◌, refl, sym, ◌∙◌, String, Bool, true, false, List, [], ◌∷◌, ◌++◌, All, any, All-snoc,
  string_eq, ok, invert, ok-injective, ok-ne-err, arith,
}
use mathlib.Core.Path.{subst}
use zabbig.Models.{LoadedMetric}
use zabbig.Models.Dynamic.{Value, list, dict, same_value, in_set, Casts}
use zabbig.Config.{report_error, report_if}
use zabbig.Config.Yaml.{ConfigFiles}
use zabbig.Config.Metric.WellFormed.{IsWellFormed}
use zabbig.Config.Load.{
  MetricsConfig, Seen, nothing_seen, add_metric, include_metric, include_unless, include_new,
  load_metrics_config,
}
use zabbig.Config.Load.Rounds.{Keeps, load_metrics_config-Keeps}

module _ (field : LoadedMetric → Value) where
  -- No field of a metric is equal to that of an earlier one, for Python's `==`.
  abbrev pub Distinct : List LoadedMetric → Type 0
  Distinct [] = Unit
  Distinct (m ∷ ms) = All (λ n. same_value (field n) (field m) ≡ false) ms × Distinct ms

  Distinct-snoc :
      (ms : List LoadedMetric) (m : LoadedMetric)
      → Distinct ms
      → All (λ n. same_value (field m) (field n) ≡ false) ms
      → Distinct (ms ++ (m ∷ []))
  Distinct-snoc [] m d h = (tt, tt)
  Distinct-snoc (n ∷ ns) m (others, d) (differ, h) =
      (All-snoc _ ns m others differ, Distinct-snoc ns m d h)

  -- A value that is not in the set differs from the field of every metric.
  Covers : List Value → List LoadedMetric → Type 0
  Covers seen ms =
      (v : Value) → any (same_value v) seen ≡ false → All (λ m. same_value v (field m) ≡ false) ms

  Covers-more :
      (w : Value) (seen : List Value) (ms : List LoadedMetric)
      → Covers seen ms
      → Covers (w ∷ seen) ms
  unfolding Covers any
  Covers-more w seen ms h v e = h v (ground (arith, e))

  Covers-snoc :
      (seen : List Value) (ms : List LoadedMetric) (m : LoadedMetric)
      → Covers seen ms
      → Covers (field m ∷ seen) (ms ++ (m ∷ []))
  unfolding Covers any
  Covers-snoc seen ms m h v e =
      All-snoc (λ n. same_value v (field n) ≡ false) ms m (h v (ground (arith, e)))
        (ground (arith, e))

in_set-any :
    (seen : List Value) (v : Value) (b : Bool) → in_set seen v ≡ ok b → any (same_value v) seen ≡ b
unfolding in_set
in_set-any seen (list vs) b e = absurd (ok-ne-err b _ (sym e))
in_set-any seen (dict d) b e = absurd (ok-ne-err b _ (sym e))
in_set-any seen v b e = ok-injective _ b e

-- The metrics of a load so far, with all their ids and keys in the two sets.
record IsTidy (s : Seen) : Type 0 where
  ids : Distinct (λ (m : LoadedMetric). m.id) s.metrics
  keys : Distinct (λ (m : LoadedMetric). m.key) s.metrics
  ids_seen : Covers (λ (m : LoadedMetric). m.id) s.ids s.metrics
  keys_seen : Covers (λ (m : LoadedMetric). m.key) s.keys s.metrics

abbrev added : LoadedMetric → Seen → Seen
added m s = record { ids = m.id ∷ s.ids; keys = m.key ∷ s.keys; metrics = s.metrics ++ (m ∷ []) }

added-IsTidy :
    (m : LoadedMetric) (s : Seen)
    → any (same_value m.id) s.ids ≡ false
    → any (same_value m.key) s.keys ≡ false
    → IsTidy s
    → IsTidy (added m s)
unfolding Covers
added-IsTidy m s new_id new_key h = record {
  ids = Distinct-snoc (λ (n : LoadedMetric). n.id) s.metrics m h.ids (h.ids_seen m.id new_id);
  keys = Distinct-snoc (λ (n : LoadedMetric). n.key) s.metrics m h.keys (h.keys_seen m.key new_key);
  ids_seen = Covers-snoc (λ (n : LoadedMetric). n.id) s.ids s.metrics m h.ids_seen;
  keys_seen = Covers-snoc (λ (n : LoadedMetric). n.key) s.keys s.metrics m h.keys_seen;
}

strict_report_if :
    (condition : Bool) (message : String) (u : Unit {0})
    → report_if true condition message ≡ ok u
    → condition ≡ false
unfolding report_if report_error
strict_report_if true message u e = absurd (ok-ne-err u _ (sym e))
strict_report_if false message u e = refl

-- A property that adding a new metric keeps, and that does not mind a longer set of ids.
include_metric-Keeps :
    (P : Seen → Type 0) (c : Casts) (strict : Bool)
    → ((m : LoadedMetric) (s : Seen) → P s → P (record s { ids = m.id ∷ s.ids }))
    → ((m : LoadedMetric) (s : Seen)
        → IsWellFormed m
        → any (same_value m.id) s.ids ≡ false
        → any (same_value m.key) s.keys ≡ false
        → P s
        → P (added m s))
    → Keeps P (include_metric c strict)
unfolding include_metric include_unless include_new
include_metric-Keeps P c strict longer new m s s' formed h e =
    let (same_id, p, rest) = invert (in_set s.ids m.id) _ s' e in
    by_id same_id (in_set-any s.ids m.id same_id p) rest
  where
    by_key :
        (b : Bool)
        → any (same_value m.id) s.ids ≡ false
        → any (same_value m.key) s.keys ≡ b
        → include_new c strict m s b ≡ ok s'
        → P s'
    by_key true new_id known e =
        let (w, _, rest) = invert (report_error strict "Duplicate Zabbix key") _ s' e in
        subst P (ok-injective _ _ rest) (longer m s h)
    by_key false new_id new_key e = subst P (ok-injective _ _ e) (new m s formed new_id new_key h)

    by_id :
        (b : Bool) → any (same_value m.id) s.ids ≡ b → include_unless c strict m s b ≡ ok s' → P s'
    by_id true known e =
        let (w, _, rest) = invert (report_error strict "Duplicate metric id") _ s' e in
        subst P (ok-injective _ _ rest) h
    by_id false new_id e =
        let (same_key, q, rest) = invert (in_set s.keys m.key) _ s' e in
        by_key same_key new_id (in_set-any s.keys m.key same_key q) rest

include_metric-IsTidy : (c : Casts) (strict : Bool) → Keeps IsTidy (include_metric c strict)
include_metric-IsTidy c strict =
    include_metric-Keeps IsTidy c strict
      (λ m s h. record {
        ids = h.ids;
        keys = h.keys;
        ids_seen = Covers-more (λ (n : LoadedMetric). n.id) m.id s.ids s.metrics h.ids_seen;
        keys_seen = h.keys_seen;
      })
      (λ m s formed new_id new_key h. added-IsTidy m s new_id new_key h)

-- What a round over the main file has tested and made.
add_metric-added :
    (c : Casts) (strict : Bool) (m : LoadedMetric) (s s' : Seen)
    → add_metric c strict m s ≡ ok s'
    → (x y : Bool) × (any (same_value m.id) s.ids ≡ x)
      × (report_if strict x "Duplicate metric id" ≡ ok tt)
      × (any (same_value m.key) s.keys ≡ y)
      × (report_if strict y "Duplicate Zabbix key" ≡ ok tt)
      × (added m s ≡ s')
unfolding add_metric
add_metric-added c strict m s s' e =
    let (x, p, e1) = invert (in_set s.ids m.id) _ s' e in
    let (u, q, e2) = invert (report_if strict x "Duplicate metric id") _ s' e1 in
    let (y, r, e3) = invert (in_set s.keys m.key) _ s' e2 in
    let (w, t, e4) = invert (report_if strict y "Duplicate Zabbix key") _ s' e3 in
    (x, y, in_set-any s.ids m.id x p, q, in_set-any s.keys m.key y r, t, ok-injective _ _ e4)

add_metric-IsTidy : (c : Casts) → Keeps IsTidy (add_metric c true)
add_metric-IsTidy c m s s' formed h e =
    let (x, y, p, q, r, t, made) = add_metric-added c true m s s' e in
    subst IsTidy made
      (added-IsTidy m s (p ∙ strict_report_if x _ tt q) (r ∙ strict_report_if y _ tt t) h)

nothing_seen-IsTidy : IsTidy nothing_seen
unfolding Covers
nothing_seen-IsTidy = record { ids = tt; keys = tt; ids_seen = λ v e. tt; keys_seen = λ v e. tt }

-- In what a strict load returns, with all its included files, no two metrics have ids that are equal for
-- Python's `==`, and no two have such Zabbix keys. Ids and keys are the values that YAML has read: the
-- number 1 and the text "1" are different.
pub load_metrics_config-Distinct :
    (c : Casts) (files : ConfigFiles) (path : String) (config : MetricsConfig)
    → load_metrics_config c true files path ≡ ok config
    → Distinct (λ (m : LoadedMetric). m.id) config.metrics
      × Distinct (λ (m : LoadedMetric). m.key) config.metrics
load_metrics_config-Distinct c files path config e =
    let (s, tidy, same) =
      load_metrics_config-Keeps IsTidy c true files (include_metric-IsTidy c true)
        (add_metric-IsTidy c) nothing_seen-IsTidy path config e in
    (
      subst (Distinct (λ (m : LoadedMetric). m.id)) same tidy.ids,
      subst (Distinct (λ (m : LoadedMetric). m.key)) same tidy.keys,
    )

AllFormed : Seen → Type 0
AllFormed s = All IsWellFormed s.metrics

include_metric-AllFormed : (c : Casts) (strict : Bool) → Keeps AllFormed (include_metric c strict)
unfolding AllFormed
include_metric-AllFormed c strict =
    include_metric-Keeps AllFormed c strict (λ m s h. h)
      (λ m s formed new_id new_key h. All-snoc IsWellFormed s.metrics m h formed)

add_metric-AllFormed : (c : Casts) (strict : Bool) → Keeps AllFormed (add_metric c strict)
unfolding AllFormed
add_metric-AllFormed c strict m s s' formed h e =
    let (_, _, _, _, _, _, made) = add_metric-added c strict m s s' e in
    subst AllFormed made (All-snoc IsWellFormed s.metrics m h formed)

-- Every metric that a load returns, strict or not, from the main file or an included one, is one that the
-- rest of the program can use: its two times are times of the day, its quota is not negative, its timeout
-- is not zero or less, and its collector is a name that has a module.
pub load_metrics_config-IsWellFormed :
    (c : Casts) (strict : Bool) (files : ConfigFiles) (path : String) (config : MetricsConfig)
    → load_metrics_config c strict files path ≡ ok config
    → All IsWellFormed config.metrics
unfolding AllFormed
load_metrics_config-IsWellFormed c strict files path config e =
    let (s, formed, same) =
      load_metrics_config-Keeps AllFormed c strict files (include_metric-AllFormed c strict)
        (add_metric-AllFormed c strict) tt path config e in
    subst (All IsWellFormed) same formed

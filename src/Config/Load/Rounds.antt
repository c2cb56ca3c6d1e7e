-- ===== src/Config/Load/Rounds.antt =====
-- config_loader.py: what every round of the two loops over metrics keeps, the whole load keeps.
use mathlib.Core.Path.{subst}
use zabbig.Prelude.{
  ◌≡◌, sym, ap, ◌∙◌, String, Bool, not, Option, none, some, List, [], ◌∷◌, Result, ok, err, Exc,
  ExcKind, attribute_error, type_error, config_error, file_not_found, ◌>>=◌, invert, ok-injective,
  ok-ne-err,
}
use zabbig.Prelude.Dict.{Dict}
use zabbig.Prelude.Float.{pos}
use zabbig.Models.{LoadedMetric}
use zabbig.Models.Dynamic.{Value, int, str, list, nil, dict, Fields, end, get, merged, Casts}
use zabbig.Config.{report_error, report_if}
use zabbig.Config.Yaml.{ConfigFiles, read_yaml, fields_of}
use zabbig.Config.Metric.{CollectorDefaults, parse_metric}
use zabbig.Config.Metric.WellFormed.{IsWellFormed, parse_metric-IsWellFormed}
use zabbig.Config.Load.{
  MetricsConfig, Seen, nothing_seen, is_one, add_metric, include_metric, add_parsed, add_all,
  unread, include_raw, load_included_metrics, load_matched, load_pattern, load_patterns,
  include_patterns, load_metrics, parse_collector_defaults, load_metrics_config,
}

module _ (P : Seen → Type 0) where
  -- Of a well-formed metric a round makes a state with the property out of one with it.
  abbrev pub Keeps : (LoadedMetric → Seen → Result Seen) → Type 0
  Keeps add = (m : LoadedMetric) (s s' : Seen) → IsWellFormed m → P s → add m s ≡ ok s' → P s'

  -- A state that has not changed.
  same : (s s' : Seen) → P s → ok s ≡ ok s' → P s'
  same s s' h e = subst P (ok-injective _ _ e) h

  warned :
      (strict : Bool) (message : String) (s s' : Seen)
      → P s
      → (report_error strict message >>= λ _. ok s) ≡ ok s'
      → P s'
  warned strict message s s' h e =
      let (_, _, rest) = invert (report_error strict message) _ s' e in same s s' h rest

  module _ (c : Casts) (strict : Bool) where
    add_all-keeps :
        (add : LoadedMetric → Seen → Result Seen)
        → Keeps add
        → (cds : Dict CollectorDefaults) (defaults : Fields) (raws : List Value) (s s' : Seen) → P s
        → add_all c strict add cds defaults raws s ≡ ok s'
        → P s'
    unfolding add_all add_parsed
    add_all-keeps add keep cds defaults [] s s' h e = same s s' h e
    add_all-keeps add keep cds defaults (v ∷ raws) s s' h e =
        let (raw, _, e1) = invert (fields_of attribute_error v) _ s' e in
        let (m, p, e2) = invert (parse_metric c strict cds defaults raw) _ s' e1 in
        let (next, q, e3) = invert (add_parsed c strict add m s) _ s' e2 in
        add_all-keeps add keep cds defaults raws next s' (parsed m raw p next q) e3
      where
        parsed :
            (m : Option LoadedMetric) (raw : Fields)
            → parse_metric c strict cds defaults raw ≡ ok m
            → (next : Seen) → add_parsed c strict add m s ≡ ok next
            → P next
        parsed none raw p next q = same s next h q
        parsed (some m) raw p next q =
            keep m s next (parse_metric-IsWellFormed c strict cds defaults raw m p) h q

    module _ (files : ConfigFiles) (keep : Keeps (include_metric c strict)) where
      unread-keeps :
          (kind : ExcKind) (x : Exc) (s s' : Seen)
          → P s
          → unread c strict files kind x s ≡ ok s'
          → P s'
      unfolding unread
      unread-keeps file_not_found x s s' h e = warned strict _ s s' h e
      unread-keeps config_error x s s' h e = warned strict _ s s' h e
      unread-keeps _ x s s' h e = absurd (ok-ne-err s' x (sym e))

      load_included_metrics-keeps :
          (defaults : Fields) (cds : Dict CollectorDefaults) (path : String) (s s' : Seen)
          → P s
          → load_included_metrics c strict files defaults cds path s ≡ ok s'
          → P s'
      unfolding load_included_metrics include_raw
      load_included_metrics-keeps defaults cds path s s' h e = by_read (read_yaml files path) e
        where
          by_read :
              (r : Result Fields)
              → (elim r [
                | ok raw ↦ include_raw c strict files defaults cds raw s
                | err x ↦ unread c strict files x.kind x s
              ])
                ≡ ok s'
              → P s'
          by_read (ok raw) e =
              let (local, _, e1) =
                invert (fields_of type_error (get "defaults" raw (dict end))) _ s' e in
              let (raws, _, e2) = invert (c.to_list (get "metrics" raw (list nil))) _ s' e1 in
              add_all-keeps (include_metric c strict) keep cds (merged defaults local) raws s s' h
                e2
          by_read (err x) e = unread-keeps x.kind x s s' h e

      load_matched-keeps :
          (defaults : Fields) (cds : Dict CollectorDefaults) (paths : List String) (s s' : Seen)
          → P s
          → load_matched c strict files defaults cds paths s ≡ ok s'
          → P s'
      unfolding load_matched
      load_matched-keeps defaults cds [] s s' h e = same s s' h e
      load_matched-keeps defaults cds (path ∷ paths) s s' h e =
          let (next, p, rest) =
            invert (load_included_metrics c strict files defaults cds path s) _ s' e in
          load_matched-keeps defaults cds paths next s'
            (load_included_metrics-keeps defaults cds path s next h p) rest

      load_pattern-keeps :
          (base : String) (defaults : Fields) (cds : Dict CollectorDefaults) (v : Value)
          (s s' : Seen)
          → P s
          → load_pattern c strict files base defaults cds v s ≡ ok s'
          → P s'
      unfolding load_pattern
      load_pattern-keeps base defaults cds (str pattern) s s' h e =
          load_matched-keeps defaults cds _ s s' h e
      load_pattern-keeps base defaults cds v s s' h e = warned strict _ s s' h e

      load_patterns-keeps :
          (base : String) (defaults : Fields) (cds : Dict CollectorDefaults) (vs : List Value)
          (s s' : Seen)
          → P s
          → load_patterns c strict files base defaults cds vs s ≡ ok s'
          → P s'
      unfolding load_patterns
      load_patterns-keeps base defaults cds [] s s' h e = same s s' h e
      load_patterns-keeps base defaults cds (v ∷ vs) s s' h e =
          let (next, p, rest) = invert (load_pattern c strict files base defaults cds v s) _ s' e in
          load_patterns-keeps base defaults cds vs next s'
            (load_pattern-keeps base defaults cds v s next h p) rest

      -- The metrics of a load come from a state with the property, if it holds at the start and both
      -- loops keep it.
      pub load_metrics_config-Keeps :
          Keeps (add_metric c strict)
          → P nothing_seen
          → (path : String) (config : MetricsConfig)
          → load_metrics_config c strict files path ≡ ok config
          → (s : Seen) × P s × (s.metrics ≡ config.metrics)
      unfolding load_metrics_config load_metrics
      load_metrics_config-Keeps keep_main start path config e =
          let (raw, _, e1) = invert (read_yaml files path) _ config e in
          let (_, _, e2) =
            invert
              (report_if strict (not (is_one (get "version" raw (int (pos 1)))))
                "Unsupported version")
              _ config e1 in
          let (defaults, _, e3) =
            invert (fields_of attribute_error (get "defaults" raw (dict end))) _ config e2 in
          let (cds_raw, _, e4) =
            invert (fields_of attribute_error (get "collector_defaults" raw (dict end))) _ config
              e3 in
          let (cds, _, e5) =
            invert (parse_collector_defaults c strict defaults cds_raw) _ config e4 in
          let (loaded, p, e6) =
            invert (load_metrics c strict files path raw defaults cds) _ config e5 in
          let (version, _, e7) = invert (c.to_int (get "version" raw (int (pos 1)))) _ config e6 in
          let (raws, _, p1) = invert (c.to_list (get "metrics" raw (list nil))) _ loaded p in
          let (main, q, p2) =
            invert (add_all c strict (add_metric c strict) cds defaults raws nothing_seen) _ loaded
              p1 in
          let (patterns, _, p3) =
            invert (include_patterns c strict files (get "include" raw (list nil))) _ loaded p2 in
          let (seen, r, p4) =
            invert (load_patterns c strict files (files.base_dir path) defaults cds patterns main) _
              loaded p3 in
          (
            seen,
            load_patterns-keeps (files.base_dir path) defaults cds patterns main seen
                (add_all-keeps (add_metric c strict) keep_main cds defaults raws nothing_seen main
                  start q)
                r,
            ap (λ (x : List Value × Seen). x.1.metrics) (ok-injective _ _ p4)
                ∙ ap (λ (x : MetricsConfig). x.metrics) (ok-injective _ _ e7),
          )

-- ===== src/Config/Metric/WellFormed.antt =====
-- config_loader.py, `_parse_metric`: what the rest of the program may rely on in a loaded metric.
use mathlib.Core.Path.{subst}
use native.Mathlib.Decide.{ℕ_discrete}
use zabbig.Prelude.{
  some-injective, some-ne-none, ◌≡◌, refl, sym, ap, ◌∙◌, String, Bool, true, false, Bool-cases, inl,
  inr, Option, none, some, string_eq, contains, Exc, ExcKind, value_error, type_error, Result, ok,
  err, ◌>>=◌, invert, ok-injective, ok-ne-err, arith,
}
use zabbig.Prelude.Dict.{Dict, lookup}
use zabbig.Prelude.Float.{ℤ, pos, negsuc, Float, float_of, lt_float, eq_float}
use zabbig.Models.{LoadedMetric}
use zabbig.Models.Dynamic.{
  Value, null, bool, float, str, list, dict, Fields, end, nil, find, get, one_of, Casts,
}
use zabbig.Registry.{module_map}
use zabbig.Config.{
  report_error, rejected, not_positive, not_an_integer, nonneg, parse_int_nonneg_field,
  parse_hhmm_field, parse_run_frequency_field,
}
use zabbig.Config.Hhmm.{IsTime, parse_hhmm_field-IsTime}
use zabbig.Config.Params.{validate_collector_params}
use zabbig.Config.Metric.{
  get_default, default_timeout, parse_enabled, parse_delivery, parse_error_policy, parse_value_type,
  parse_importance, CollectorDefaults, Settings, Schedule, positive_timeout, parse_timeout,
  parse_settings, parse_schedule, parse_body, known_collector, if_some, parse_metric,
  valid_collectors, required,
}

abbrev pub IsNonneg : Option ℤ → Type 0
IsNonneg none = Unit
IsNonneg (some (pos n)) = Unit
IsNonneg (some (negsuc n)) = ⊥

pub record IsWellFormed (m : LoadedMetric) : Type 0 where
  pub time_from : IsTime m.time_window_from
  pub time_till : IsTime m.time_window_till
  pub limit : IsNonneg m.max_executions_per_day
  pub timeout : not_positive m.timeout_seconds ≡ false
  pub collector : lookup m.collector module_map ≡ some m.collector

-- A lenient load gives no value where it warns.
rejected-none :
    {A : Type 0} (strict : Bool) (message : String) (r : Option A)
    → rejected strict message ≡ ok r
    → r ≡ none
unfolding rejected
rejected-none true message r e = absurd (ok-ne-err r _ (sym e))
rejected-none false message r e = sym (ok-injective _ _ e)

rejected-IsNonneg :
    (strict : Bool) (message : String) (q : Option ℤ) → rejected strict message ≡ ok q → IsNonneg q
rejected-IsNonneg strict message q e = subst IsNonneg (sym (rejected-none strict message q e)) tt

not_an_integer-IsNonneg :
    (strict : Bool) (kind : ExcKind) (x : Exc) (q : Option ℤ)
    → not_an_integer strict kind x ≡ ok q
    → IsNonneg q
unfolding not_an_integer
not_an_integer-IsNonneg strict value_error x q e = rejected-IsNonneg strict _ q e
not_an_integer-IsNonneg strict type_error x q e = rejected-IsNonneg strict _ q e
not_an_integer-IsNonneg strict _ x q e = absurd (ok-ne-err q x (sym e))

nonneg-IsNonneg :
    (strict : Bool) (r : Result ℤ) (q : Option ℤ) → nonneg strict r ≡ ok q → IsNonneg q
unfolding nonneg
nonneg-IsNonneg strict (ok (pos n)) q e = subst IsNonneg (ok-injective _ _ e) tt
nonneg-IsNonneg strict (ok (negsuc n)) q e = rejected-IsNonneg strict _ q e
nonneg-IsNonneg strict (err x) q e = not_an_integer-IsNonneg strict x.kind x q e

parse_int_nonneg_field-IsNonneg :
    (to_int : Value → Result ℤ) (strict : Bool) (v : Option Value) (q : Option ℤ)
    → parse_int_nonneg_field to_int strict v ≡ ok q
    → IsNonneg q
unfolding parse_int_nonneg_field
parse_int_nonneg_field-IsNonneg to_int strict none q e = subst IsNonneg (ok-injective _ _ e) tt
parse_int_nonneg_field-IsNonneg to_int strict (some null) q e =
    subst IsNonneg (ok-injective _ _ e) tt
parse_int_nonneg_field-IsNonneg to_int strict (some v) q e = nonneg-IsNonneg strict (to_int v) q e

valid-module_map :
    (name : String) → contains valid_collectors name ≡ true → lookup name module_map ≡ some name
unfolding lookup
valid-module_map name h = ground arith

known_collector-module_map :
    (c : Casts) (strict : Bool) (v : Value) (name : String)
    → known_collector c strict v ≡ ok (some name)
    → lookup name module_map ≡ some name
unfolding known_collector
known_collector-module_map c strict (str s) name e =
    elim (Bool-cases (contains valid_collectors s)) [
      | inl known ↦ ground (arith, valid-module_map s known)
      | inr other ↦ absurd (some-ne-none name (rejected-none strict _ (some name) (rw other at e)))
    ]
known_collector-module_map c strict v name e =
    let (known, _, rest) = invert (one_of valid_collectors v) _ (some name) e in
    absurd (some-ne-none name (rejected-none strict _ (some name) rest))

ten-positive : not_positive (float_of 10) ≡ false
unfolding float_of lt_float eq_float ℕ_discrete
ten-positive = refl

positive_timeout-positive :
    (c : Casts) (strict : Bool) (t u : Float)
    → positive_timeout c strict t ≡ ok u
    → not_positive u ≡ false
unfolding positive_timeout
positive_timeout-positive c strict t u e = elim (Bool-cases (not_positive t)) [
  | inl bad ↦
      let (warned, _, rest) = invert (report_error strict _) _ u (rw bad at e) in
      ap not_positive (sym (ok-injective _ _ rest)) ∙ ten-positive
  | inr good ↦ ap not_positive (sym (ok-injective _ _ (rw good at e))) ∙ good
]

module _ (c : Casts) (strict : Bool) (raw defaults : Fields) (cd : Option CollectorDefaults) where
  parse_timeout-positive :
      (u : Float) → parse_timeout c strict raw defaults cd ≡ ok u → not_positive u ≡ false
  unfolding parse_timeout
  parse_timeout-positive u e =
      let (default, _, rest) = invert (default_timeout c strict defaults cd) _ u e in
      let (timeout, _, last) =
        invert (c.to_float (get "timeout_seconds" raw (float default))) _ u rest in
      positive_timeout-positive c strict timeout u last

  parse_settings-positive :
      (s : Settings)
      → parse_settings c strict raw defaults cd ≡ ok s
      → not_positive s.timeout_seconds ≡ false
  unfolding parse_settings
  parse_settings-positive s e =
      let (enabled, _, e1) =
        invert (parse_enabled c strict (get_default raw defaults "enabled" (bool true))) _ s e in
      let (timeout, p, e2) = invert (parse_timeout c strict raw defaults cd) _ s e1 in
      let (delivery, _, e3) = invert (parse_delivery c strict raw defaults cd) _ s e2 in
      let (error_policy, _, e4) = invert (parse_error_policy c strict raw defaults) _ s e3 in
      let (value_type, _, e5) = invert (parse_value_type c strict raw defaults) _ s e4 in
      let (importance, _, e6) = invert (parse_importance c strict raw defaults) _ s e5 in
      ap (λ (t : Settings). not_positive t.timeout_seconds) (sym (ok-injective _ _ e6))
      ∙ parse_timeout-positive timeout p

  parse_schedule-IsTime :
      (s : Schedule)
      → parse_schedule c strict raw ≡ ok s
      → IsTime s.time_window_from × IsTime s.time_window_till × IsNonneg s.max_executions_per_day
  unfolding parse_schedule
  parse_schedule-IsTime s e =
      let (from, p, e1) =
        invert (parse_hhmm_field c.to_str strict (find "time_window_from" raw)) _ s e in
      let (till, q, e2) =
        invert (parse_hhmm_field c.to_str strict (find "time_window_till" raw)) _ s e1 in
      let (limit, r, e3) =
        invert (parse_int_nonneg_field c.to_int strict (find "max_executions_per_day" raw)) _ s
          e2 in
      let (frequency, _, e4) =
        invert (parse_run_frequency_field c.to_int strict (find "run_frequency" raw)) _ s e3 in
      subst
        (λ (t : Schedule).
          IsTime t.time_window_from × IsTime t.time_window_till × IsNonneg t.max_executions_per_day)
        (ok-injective _ _ e4)
        (
          parse_hhmm_field-IsTime c.to_str strict _ from p,
          parse_hhmm_field-IsTime c.to_str strict _ till q,
          parse_int_nonneg_field-IsNonneg c.to_int strict _ limit r,
        )

  parse_body-IsWellFormed :
      (metric_id key : Value) (name : String) (m : LoadedMetric)
      → lookup name module_map ≡ some name
      → parse_body c strict raw defaults cd metric_id name key ≡ ok m
      → IsWellFormed m
  unfolding parse_body
  parse_body-IsWellFormed metric_id key name m known e =
      let (settings, p, e1) = invert (parse_settings c strict raw defaults cd) _ m e in
      let (schedule, q, e2) = invert (parse_schedule c strict raw) _ m e1 in
      let (tags, _, e3) = invert (c.to_list (get_default raw defaults "tags" (list nil))) _ m e2 in
      let (params, _, e4) = invert (c.to_dict (get "params" raw (dict end))) _ m e3 in
      let (checked, _, e5) = invert (validate_collector_params c strict name params) _ m e4 in
      let (from, till, limit) = parse_schedule-IsTime schedule q in
      subst IsWellFormed (ok-injective _ _ e5) (record {
        time_from = from;
        time_till = till;
        limit = limit;
        timeout = parse_settings-positive settings p;
        collector = known;
      })

module _ (c : Casts) (strict : Bool) {A B : Type 0} where
  -- What an early return lets through.
  invert_some :
      (r : Result (Option A)) (next : A → Result (Option B)) (b : B)
      → (r >>= λ o. if_some c strict o next) ≡ ok (some b)
      → (a : A) × (r ≡ ok (some a)) × (next a ≡ ok (some b))
  unfolding if_some
  invert_some (ok none) next b e = absurd (some-ne-none b (sym (ok-injective _ _ e)))
  invert_some (ok (some a)) next b e = (a, refl, e)
  invert_some (err x) next b e = absurd (ok-ne-err (some b) x (sym e))

-- A metric that the loader lets through, strict or not, is one that the rest of the program can use: its
-- two times are times of the day, its quota is not negative, its timeout is not zero or less, and its
-- collector is a name that has a module.
pub parse_metric-IsWellFormed :
    (c : Casts) (strict : Bool) (collector_defaults : Dict CollectorDefaults)
    (defaults raw : Fields) (m : LoadedMetric)
    → parse_metric c strict collector_defaults defaults raw ≡ ok (some m)
    → IsWellFormed m
unfolding parse_metric
parse_metric-IsWellFormed c strict collector_defaults defaults raw m e =
    let (metric_id, _, e1) = invert_some c strict (required c strict raw "id") _ m e in
    let (collector, _, e2) = invert_some c strict (required c strict raw "collector") _ m e1 in
    let (name, p, e3) = invert_some c strict (known_collector c strict collector) _ m e2 in
    let (key, _, e4) = invert_some c strict (required c strict raw "key") _ m e3 in
    let cd = lookup name collector_defaults in
    let body = parse_body c strict raw defaults cd metric_id name key in
    let (m', q, e5) = invert body _ (some m) e4 in
    subst IsWellFormed (some-injective m' m (ok-injective _ _ e5)) (
      parse_body-IsWellFormed c strict raw defaults cd metric_id key name m'
        (known_collector-module_map c strict collector name p) q)

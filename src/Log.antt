-- ===== src/Log.antt =====
-- zabbig_client/src/zabbig_client/collectors/log.py: the conditions on one line, and the strategies
-- that reduce the entries of many lines to one value. Log/Scan.antt reads the file and Log/Collect.antt
-- puts the two together.
pub mod Scan
pub mod Source
pub mod Collect
pub mod Conditions
pub mod Strategies
pub mod Resume
pub mod Plain
use zabbig.Prelude.{
  ℕ, zero, String, Bool, true, false, not, ◌&&◌, ◌||◌, Option, none, some, List, [], ◌∷◌, ◌==◌,
  string_eq, if◌then◌else◌, Result, ok, err, raise, Exc, ExcKind, value_error, type_error,
  index_error, ◌>>=◌,
}
use zabbig.Prelude.Float.{ℤ, pos, negsuc, Float, finite, nan, lt_float, eq_float, zero_float}
use zabbig.Models.Dynamic.{
  Value, null, bool, int, float, str, list, dict, Values, nil, cons, Fields, end, field, find, get,
  truthy, Builtins, Group, no_such_group, unmatched, text,
}

-- A value, and the host name that goes with it.
abbrev pub Entry : Type 0
Entry = Value × Option Value

-- `v or None`
unfoldable pub or_none : Value → Option Value
or_none v = if truthy v then some v else none

-- The table `_OPS`. `a >= b` is `b <= a`, which is `b < a or b == a` also for a nan.
unfoldable pub op : String → Option (Float → Float → Bool)
op name =
    if name == "gt"
    then some (λ a b. lt_float b a)
    else if name == "lt"
    then some (λ a b. lt_float a b)
    else if name == "gte"
    then some (λ a b. lt_float b a || eq_float a b)
    else if name == "lte"
    then some (λ a b. lt_float a b || eq_float a b)
    else if name == "eq"
    then some eq_float
    else none

-- `_OPS.get(compare)`; a list or a dict cannot be hashed.
unfoldable pub op_of : Value → Result (Float → Float → Bool)
unfolding op
op_of (str name) = elim (op name) [
  | some f ↦ ok f
  | none ↦ raise value_error "Unknown compare operator"
]
op_of (list vs) = raise type_error "unhashable type: 'list'"
op_of (dict d) = raise type_error "unhashable type: 'dict'"
op_of v = raise value_error "Unknown compare operator"

-- `except (IndexError, ValueError)` around `float(m.group(1))`: `none` is a caught exception.
uncaught : ExcKind → Result Float → Result (Option Float)
uncaught value_error r = ok none
uncaught index_error r = ok none
uncaught kind (ok x) = ok (some x)
uncaught kind (err e) = err e

unfoldable pub caught : Result Float → Result (Option Float)
unfolding uncaught
caught (ok x) = ok (some x)
caught (err e) = uncaught e.kind (err e)

module _ (b : Builtins) where
  open b use {to_float, search}

  -- `float(m.group(1))`
  unfoldable pub captured_of : Group → Result Float
  captured_of no_such_group = raise index_error "no such group"
  captured_of unmatched = to_float null
  captured_of (text s) = to_float (str s)

  -- `value="$1"` is the captured number itself.
  reported : Value → Float → Value
  reported (str s) x = if s == "$1" then float x else str s
  reported v x = v

  -- A captured number against the threshold.
  unfoldable pub compare_captured : Fields → Value → Option Value → Float → Result (Option Entry)
  unfolding reported
  compare_captured cond value_raw host captured = do
    threshold ← to_float (get "threshold" cond (int (pos 0)))
    test ← op_of (get "compare" cond (str "gt"))
    ok (if test captured threshold then some (reported value_raw captured, host) else none)

  -- The branch of an `extract` condition.
  unfoldable pub eval_extract : Fields → Value → Option Value → Option Group → Result (Option Entry)
  eval_extract cond value_raw host none = ok none
  eval_extract cond value_raw host (some group) = do
    captured ← caught (captured_of group)
    elim captured [ none ↦ ok none | some x ↦ compare_captured cond value_raw host x ]

  -- `_eval_one_condition`; `none` is (False, None, None).
  unfoldable pub eval_one_condition : Fields → String → Result (Option Entry)
  eval_one_condition cond line =
      let value_raw = get "value" cond null in
      let host = or_none (get "host_name" cond null) in
      elim (find "when" cond) [
        | some pattern ↦ (do
          m ← search pattern line
          elim m [ some g ↦ ok (some (value_raw, host)) | none ↦ ok none ])
        | none ↦ elim (find "extract" cond) [
          | some pattern ↦ (do m ← search pattern line; eval_extract cond value_raw host m)
          | none ↦ ok (some (value_raw, host))
        ]
      ]

  -- `_eval_conditions`
  unfoldable pub eval_conditions : List Fields → String → Result (Option Entry)
  eval_conditions [] line = ok none
  eval_conditions (cond ∷ conditions) line = do
    matched ← eval_one_condition cond line
    elim matched [ some entry ↦ ok (some entry) | none ↦ eval_conditions conditions line ]

  -- `except (TypeError, ValueError)` around `float(v)`: `none` is a caught exception.
  not_a_number : ExcKind → Exc → Result (Option Float)
  not_a_number value_error e = ok none
  not_a_number type_error e = ok none
  not_a_number kind e = err e

  unfoldable pub number_of : Value → Result (Option Float)
  unfolding not_a_number
  number_of v = elim (to_float v) [ ok x ↦ ok (some x) | err e ↦ not_a_number e.kind e ]

  abbrev pub add_numeric : {H : Type 0} → Option Float → H → List (Float × H) → List (Float × H)
  add_numeric none h xs = xs
  add_numeric (some x) h xs = (x, h) ∷ xs

  -- The entries with a numeric value.
  unfoldable pub numeric : {H : Type 0} → List (Value × H) → Result (List (Float × H))
  numeric [] = ok []
  numeric ((v, h) ∷ entries) = do x ← number_of v; xs ← numeric entries; ok (add_numeric x h xs)

-- `max(xs, key=…)` and `min(xs, key=…)` with the first element found: the first of the best ones.
unfoldable pub max_from : {H : Type 0} → Float × H → List (Float × H) → Float × H
max_from best [] = best
max_from best (x ∷ xs) = max_from (if lt_float best.0 x.0 then x else best) xs

unfoldable pub min_from : {H : Type 0} → Float × H → List (Float × H) → Float × H
min_from best [] = best
min_from best (x ∷ xs) = min_from (if lt_float x.0 best.0 then x else best) xs

abbrev pub last_of : {A : Type 0} → A → List A → A
last_of a [] = a
last_of a (b ∷ bs) = last_of b bs

-- What the strategies "max" and "min" make of the numeric entries.
unfoldable pub pick : {H : Type 0} → String → Value × H → List (Float × H) → Result (Value × H)
pick strategy last [] = ok last
pick strategy last (x ∷ xs) =
    if strategy == "max"
    then ok (float (max_from x xs).0, (max_from x xs).1)
    else if strategy == "min"
    then ok (float (min_from x xs).0, (min_from x xs).1)
    else raise value_error "Unknown result strategy"

-- `_resolve_result_with_host`; `none` is (None, None).
unfoldable pub resolve_result_with_host :
    {H : Type 0} → Builtins → List (Value × H) → String → Result (Option (Value × H))
resolve_result_with_host b [] strategy = ok none
resolve_result_with_host b (e ∷ entries) strategy =
    if strategy == "first"
    then ok (some e)
    else if strategy == "last"
    then ok (some (last_of e entries))
    else (do
      xs ← numeric b (e ∷ entries)
      winner ← pick strategy (last_of e entries) xs
      ok (some winner))

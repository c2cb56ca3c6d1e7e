-- ===== src/Database/Rows.antt =====
-- database.py, `_handle_value_mode` and `_handle_condition_mode`: the rows that become one result.
-- Conditions are read as mappings before the first row, not one by one.
use zabbig.Prelude.{
  ℕ, suc, ◌-◌, String, Option, none, some, List, [], ◌∷◌, length, get_elem?, ltb, ◌==◌, string_eq,
  if◌then◌else◌, Result, ok, raise, index_error, type_error, value_error, attribute_error, ◌>>=◌,
}
use zabbig.Prelude.Float.{ℤ, pos, negsuc}
use zabbig.Models.{MetricDef, MetricResult, Status}
use zabbig.Models.Dynamic.{Value, null, str, list, dict, Fields, items, truthy, Builtins}
use zabbig.Log.{Entry, eval_conditions, resolve_result_with_host}
use zabbig.Log.Plain.{resolve_result}
use zabbig.Log.Collect.{chosen_host}
use zabbig.Prelude.Float.{zero_float}

abbrev pub Row : Type 0
Row = List Value

-- `_make_result`, at a time
unfoldable pub make_result : Builtins → ℕ → MetricDef → Value → Option Value → MetricResult
make_result b now metric value host = record {
  metric_id = metric.id;
  key = metric.key;
  value = elim value [ null ↦ none | v ↦ some (b.to_str v) ];
  value_type = metric.value_type;
  timestamp = now;
  collector = metric.collector;
  delivery = metric.delivery;
  status = Status.ok;
  unit = metric.unit;
  tags = metric.tags;
  error = none;
  source = "";
  duration_ms = zero_float;
  host_name = chosen_host b host metric.host_name;
}

-- `_make_default_result`
unfoldable pub make_default_result : Builtins → ℕ → MetricDef → Value → List MetricResult
make_default_result b now metric null = []
make_default_result b now metric v = make_result b now metric v none ∷ []

in_row : Option Value → Result Value
in_row (some v) = ok v
in_row none = raise index_error "result_column is out of range"

-- `row[i]`: a negative index counts from the end.
unfoldable pub cell_at : ℤ → Row → Result Value
unfolding in_row
cell_at (pos n) row = in_row (get_elem? row n)
cell_at (negsuc n) row =
    if ltb n (length row) then in_row (get_elem? row (length row - suc n)) else in_row none

-- The cells of a column.
unfoldable pub column : ℤ → List Row → Result (List Value)
column i [] = ok []
column i (row ∷ rows) = do cell ← cell_at i row; cells ← column i rows; ok (cell ∷ cells)

-- The strategy as a text; any other value is no strategy.
abbrev pub strategy_of : Value → String
strategy_of (str s) = s
strategy_of v = ""

-- `str(value) if value is not None` of what a strategy gives.
abbrev pub value_or_null : Option Value → Value
value_or_null none = null
value_or_null (some v) = v

module _ (b : Builtins) (now : ℕ) (metric : MetricDef) (i : ℤ) (strategy default : Value) where
  -- `_handle_value_mode`
  unfoldable pub handle_value_mode : List Row → Result (List MetricResult)
  handle_value_mode [] = ok (make_default_result b now metric default)
  handle_value_mode (row ∷ rows) = do
    values ← column i (row ∷ rows)
    final ← resolve_result b values (strategy_of strategy)
    ok (make_result b now metric (value_or_null final) none ∷ [])

  unfoldable pub dicts_of : List Value → Result (List Fields)
  dicts_of [] = ok []
  dicts_of (dict d ∷ vs) = do rest ← dicts_of vs; ok (d ∷ rest)
  dicts_of (v ∷ vs) = raise attribute_error "object has no attribute 'get'"

  -- `if not conditions: raise ValueError`
  unfoldable pub some_conditions : Value → Result (List Fields)
  some_conditions (list vs) =
      let found = dicts_of (items vs) in
      if truthy (list vs)
      then found
      else raise value_error "mode=condition requires params.conditions"
  some_conditions v =
      if truthy v
      then raise type_error "object is not iterable"
      else raise value_error "mode=condition requires params.conditions"

  -- `if val is not None: entries.append((val, cond_host))`
  abbrev pub add_found : Option Entry → List Entry → List Entry
  add_found none entries = entries
  add_found (some (null, host)) entries = entries
  add_found (some entry) entries = entry ∷ entries

  unfoldable pub row_entries : List Fields → List Row → Result (List Entry)
  row_entries conditions [] = ok []
  row_entries conditions (row ∷ rows) = do
    cell ← cell_at i row
    found ← eval_conditions b conditions (b.to_str cell)
    entries ← row_entries conditions rows
    ok (add_found found entries)

  reduced : Option Entry → List MetricResult
  reduced none = make_default_result b now metric default
  reduced (some (value, host)) = make_result b now metric value host ∷ []

  -- `_handle_condition_mode`
  unfoldable pub handle_condition_mode : Value → List Row → Result (List MetricResult)
  unfolding reduced
  handle_condition_mode conditions [] = ok (make_default_result b now metric default)
  handle_condition_mode conditions (row ∷ rows) = do
    dicts ← some_conditions conditions
    entries ← row_entries dicts (row ∷ rows)
    final ← resolve_result_with_host b entries (strategy_of strategy)
    ok (reduced final)

  -- The two modes.
  unfoldable pub handle_mode : Value → Value → List Row → Result (List MetricResult)
  handle_mode (str mode) conditions rows =
      if mode == "value"
      then handle_value_mode rows
      else if mode == "condition"
      then handle_condition_mode conditions rows
      else raise value_error "Unknown database collector mode"
  handle_mode v conditions rows = raise value_error "Unknown database collector mode"

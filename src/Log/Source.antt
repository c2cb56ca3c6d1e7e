-- ===== src/Log/Source.antt =====
-- log.py: what is read for a metric: the path of its log file, its parameters, its entries.
use zabbig.Prelude.{
  ℕ, String, Bool, ◌&&◌, Option, none, some, List, [], ◌∷◌, if◌then◌else◌, Result, ok, err, raise,
  value_error, type_error, key_error, attribute_error, file_not_found, ◌>>=◌,
}
use zabbig.Prelude.Dict.{Dict, lookup, get_or}
use zabbig.Prelude.Float.{Float, lt_float, pos}
use zabbig.Models.{MetricDef}
use zabbig.Models.Dynamic.{Value, int, str, list, dict, nil, Fields, items, truthy, Builtins}
use zabbig.Log.{Entry, resolve_result_with_host}
use zabbig.Log.Scan.{Bytes, LogFile, OffsetState, scan_file, log_count}

-- The file system, with os.path.
pub record Files : Type 0 where
  -- `os.path.abspath(os.path.dirname(p) or ".")`, `os.path.basename(p)` and `os.path.join(d, name)`
  pub abs_dir : String → String
  pub basename : String → String
  pub join : String → String → String
  pub is_file : String → Bool
  pub is_dir : String → Bool
  pub listdir : String → Result (List String)
  -- `re.compile(f"^(?:{basepart})$")`, and its `match`
  pub compile : String → Result (String → Bool)
  pub getmtime : String → Result Float
  -- `os.stat` and the bytes of a file
  pub read : String → Result LogFile
  -- `raw_line.decode(encoding, errors="replace").rstrip("\\r\\n")`
  pub decode : Value → Bytes → Result String
  -- Whether `_save_state` can write a path.
  pub writable : String → Result (Unit {0})

-- `matches.sort(key=…, reverse=True)`, which keeps the order of equal times; only the first is used.
pub newest_from : Float × String → List (Float × String) → Float × String
newest_from best [] = best
newest_from best (x ∷ xs) = newest_from (if lt_float best.0 x.0 then x else best) xs

module _ (fs : Files) where
  open fs use {
    abs_dir, basename, join, is_file, is_dir, listdir, compile, getmtime, read, decode, writable,
  }

  -- The comprehension over the entries of the directory.
  unfoldable pub matching : (String → Bool) → String → List String → List String
  matching test dir [] = []
  matching test dir (e ∷ entries) =
      let rest = matching test dir entries in
      if test e && is_file (join dir e) then e ∷ rest else rest

  -- The keys of the sort.
  unfoldable pub timed : String → List String → Result (List (Float × String))
  timed dir [] = ok []
  timed dir (e ∷ entries) = do
    time ← getmtime (join dir e)
    rest ← timed dir entries
    ok ((time, e) ∷ rest)

  unfoldable pub newest : String → List (Float × String) → Result String
  unfolding newest_from
  newest dir [] = raise file_not_found "No files matching"
  newest dir (x ∷ xs) = ok (join dir (newest_from x xs).1)

  -- An OSError of `os.listdir`.
  unfoldable pub listed : String → Result (List String)
  listed dir = elim (listdir dir) [
    | ok entries ↦ ok entries
    | err e ↦ raise file_not_found "Cannot list log directory"
  ]

  unfoldable pub compiled : String → Result (String → Bool)
  compiled basepart = elim (compile basepart) [
    | ok test ↦ ok test
    | err e ↦ raise value_error "Invalid regex in log path basename"
  ]

  -- `_resolve_path`
  unfoldable pub resolve_path : String → Result String
  resolve_path raw_path =
      let dir = abs_dir raw_path in
      let exact = join dir (basename raw_path) in
      let searched : Result String = (do
        entries ← listed dir
        test ← compiled (basename raw_path)
        times ← timed dir (matching test dir entries)
        newest dir times) in
      if is_file exact
      then ok exact
      else if is_dir dir
      then searched
      else raise file_not_found "Log directory not found"

  -- `params["path"]`; a path that is no text makes os.path raise a TypeError.
  unfoldable pub path_of : Dict Value → Result String
  path_of params = elim (lookup "path" params) [
    | some (str p) ↦ ok p
    | some v ↦ raise type_error "expected str, bytes or os.PathLike object"
    | none ↦ raise key_error "'path'"
  ]

  -- `match_pattern`, or None if it is empty.
  unfoldable pub match_of : Dict Value → Option Value
  match_of params = let v = get_or "match" params (str "") in if truthy v then some v else none

  -- `re.compile(match_pattern) if match_pattern else None`, which raises exactly if a search in some text
  -- does.
  unfoldable pub compile_match : Builtins → Option Value → Result (Unit {0})
  compile_match b none = ok tt
  compile_match b (some pattern) = do found ← b.search pattern ""; ok tt

  -- The conditions as dicts. The source calls `get` on each of them as it comes to it; the loader
  -- warns of conditions that are no list of mappings.
  unfoldable pub dicts_of : List Value → Result (List Fields)
  dicts_of [] = ok []
  dicts_of (dict d ∷ vs) = do rest ← dicts_of vs; ok (d ∷ rest)
  dicts_of (v ∷ vs) = raise attribute_error "object has no attribute 'get'"

  unfoldable pub conditions_from : Value → Result (List Fields)
  conditions_from (list vs) = dicts_of (items vs)
  conditions_from v = if truthy v then raise type_error "object is not iterable" else ok []

  unfoldable pub conditions_of : Dict Value → Result (List Fields)
  conditions_of params = conditions_from (get_or "conditions" params (list nil))

  -- The value of the entries.
  unfoldable pub value_of : Builtins → Dict Value → List Entry → Result Entry
  value_of b params entries = do
    winner ← elim (get_or "result" params (str "last")) [
      | str strategy ↦ resolve_result_with_host b entries strategy
      | v ↦ resolve_result_with_host b entries ""
    ]
    elim winner [
      | some entry ↦ ok entry
      | none ↦ ok (get_or "default_value" params (int (pos 0)), none)
    ]

  -- What is read: the entries and the new state.
  unfoldable pub scanned : Builtins → MetricDef → OffsetState → Result (List Entry × OffsetState)
  scanned b metric state = do
    raw_path ← path_of metric.params
    resolved ← resolve_path raw_path
    file ← read resolved
    pattern ← compile_match b (match_of metric.params)
    conditions ← conditions_of metric.params
    scan_file b (decode (get_or "encoding" metric.params (str "utf-8"))) (match_of metric.params)
        conditions state file

  -- `_log_count` of a metric.
  unfoldable pub count_metric : Builtins → MetricDef → Result ℕ
  count_metric b metric = do
    raw_path ← path_of metric.params
    resolved ← resolve_path raw_path
    pattern ← compile_match b (match_of metric.params)
    file ← read resolved
    log_count b (decode (get_or "encoding" metric.params (str "utf-8"))) (match_of metric.params)
        file.content

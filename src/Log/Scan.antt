-- ===== src/Log/Scan.antt =====
-- log.py: the incremental scan of `_log_condition`, the state file with its offset, and `_log_count`. A
-- file is its inode and its bytes. Between `os.stat` and the end of the read the file does not change.
use zabbig.Prelude.{
  ℕ, suc, ◌+◌, String, Bool, true, false, not, ◌||◌, Option, none, some, List, [], ◌∷◌, ◌++◌,
  length, drop, ltb, ◌==◌, nat_eq, if◌then◌else◌, Result, ok, ◌>>=◌,
}
use zabbig.Models.Dynamic.{Value, null, int, Fields, Builtins}
use zabbig.Prelude.Float.{pos}
use zabbig.Log.{Entry, eval_conditions}

abbrev pub Bytes : Type 0
Bytes = List ℕ

pub record LogFile : Type 0 where
  pub inode : ℕ
  pub content : Bytes

-- The state dict: the keys "inode" and "offset", with `{}` for a missing or corrupt file.
pub record OffsetState : Type 0 where
  pub inode : Option ℕ
  pub offset : ℕ

-- What the loop over `readline` has seen at the end of the file: the complete lines, each with its
-- newline, and the partial line behind them.
unfoldable pub push : ℕ → List Bytes × Bytes → List Bytes × Bytes
push b ([], partial) = ([], b ∷ partial)
push b (line ∷ lines, partial) = ((b ∷ line) ∷ lines, partial)

unfoldable pub read_lines : Bytes → List Bytes × Bytes
unfolding push
read_lines [] = ([], [])
read_lines (b ∷ bytes) =
    let rest = read_lines bytes in if b == 10 then ((b ∷ []) ∷ rest.0, rest.1) else push b rest

-- `stored_inode != current_inode or current_size < start_offset`
abbrev pub same_inode : Option ℕ → ℕ → Bool
same_inode none i = false
same_inode (some j) i = j == i

unfoldable pub start_offset : OffsetState → LogFile → ℕ
start_offset state file =
    if not (same_inode state.inode file.inode) || ltb (length file.content) state.offset
    then 0
    else state.offset

module _ (b : Builtins) (decode : Bytes → Result String) (match_pattern : Option Value) where
  -- `match_re and not match_re.search(line)`, negated.
  unfoldable pub passes : String → Result Bool
  passes line = elim match_pattern [
    | none ↦ ok true
    | some pattern ↦ (do m ← b.search pattern line; elim m [ some g ↦ ok true | none ↦ ok false ])
  ]

  -- `if val is not None: entries.append(…)`
  unfoldable pub appended : Option Entry → List Entry
  appended none = []
  appended (some (null, host)) = []
  appended (some entry) = entry ∷ []

  -- What one complete line contributes. Without conditions each match contributes 1.
  unfoldable pub line_entries : List Fields → String → Result (List Entry)
  unfolding appended
  line_entries [] line = ok ((int (pos 1), none) ∷ [])
  line_entries (c ∷ conditions) line = do
    entry ← eval_conditions b (c ∷ conditions) line
    ok (appended entry)

  unfoldable pub eval_line : List Fields → Bytes → Result (List Entry)
  eval_line conditions raw_line = do
    line ← decode raw_line
    wanted ← passes line
    if wanted then line_entries conditions line else ok []

  -- The loop from an offset: the entries, and the new offset. A partial line is left for the next run.
  unfoldable pub scan_lines : List Fields → ℕ → List Bytes → Result (List Entry × ℕ)
  scan_lines conditions offset [] = ok ([], offset)
  scan_lines conditions offset (raw_line ∷ lines) = do
    entries ← eval_line conditions raw_line
    rest ← scan_lines conditions (offset + length raw_line) lines
    ok (entries ++ rest.0, rest.1)

  unfoldable pub scan : List Fields → ℕ → Bytes → Result (List Entry × ℕ)
  scan conditions offset content = scan_lines conditions offset (read_lines (drop offset content)).0

  -- `_log_condition` up to the state that it saves: the entries and the new state.
  unfoldable pub scan_file : List Fields → OffsetState → LogFile → Result (List Entry × OffsetState)
  scan_file conditions state file = do
    r ← scan conditions (start_offset state file) file.content
    ok (r.0, record { inode = some file.inode; offset = r.1 })

  -- The loop of `_log_count` over all lines, a partial one too.
  unfoldable pub count_lines : List Bytes → Result ℕ
  count_lines [] = ok 0
  count_lines (raw_line ∷ lines) = do
    line ← decode raw_line
    wanted ← passes line
    count ← count_lines lines
    ok (if wanted then suc count else count)

  pub all_lines : List Bytes × Bytes → List Bytes
  all_lines (lines, []) = lines
  all_lines (lines, b ∷ partial) = lines ++ (b ∷ partial) ∷ []

  unfoldable pub log_count : Bytes → Result ℕ
  unfolding all_lines
  log_count content = count_lines (all_lines (read_lines content))

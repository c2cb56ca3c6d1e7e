-- ===== src/Main/Output.antt =====
-- main.py, `_write_output`: the report file of a run, as JSON, CSV or a table. What opening and writing
-- the file do, and the texts of JSON and CSV, are the parameter `Report`. The file is its content, or
-- none where there is no file.
pub mod Aligned
pub mod Escapes
use zabbig.Prelude.{
  ℕ, ◌-◌, ◌+◌, String, Bool, true, false, Option, none, some, List, [], ◌∷◌, keep, length, ltb,
  ◌==◌, string_eq, if◌then◌else◌, Result, ok, err, Exc, ExcKind, os_error, file_not_found,
  timeout_error,
}
use zabbig.Prelude.State.{Action, pure}
use zabbig.Prelude.Text.{codes}
use zabbig.Prelude.Affix.{append, repeat_char}
use zabbig.Models.{MetricResult, Status, is_sendable}
use zabbig.Main.{is_empty}

-- A text of which a part may be written before an exception.
pub record Written : Type 0 where
  pub text : String
  pub raised : Option Exc

pub record Report : Type 0 where
  -- `open(path, "w")`
  pub open_file : Result (Unit {0})
  -- What `fh.write` leaves of a text
  pub stored : String → Written
  -- What `json.dump` and `csv.DictWriter` leave of the rows
  pub json_dump : List MetricResult → Written
  pub csv_rows : List MetricResult → Written

-- The text of a status
unfoldable pub status_text : Status → String
status_text Status.ok = "ok"
status_text Status.failed = "failed"
status_text Status.timeout = "timeout"
status_text Status.skipped = "skipped"
status_text Status.fallback = "fallback"

-- `str(r.value)`
abbrev pub value_text : Option String → String
value_text (some v) = v
value_text none = "None"

abbrev pub len : String → ℕ
len s = length (codes s)

-- `f"{s:<{width}}"`
unfoldable pub ljust : ℕ → String → String
ljust width s = append s (repeat_char " " (width - len s))

-- `max(len(field(r)) for r in sendable)`, of a list that is not empty
unfoldable pub widest : (MetricResult → String) → List MetricResult → ℕ
widest field [] = 0
widest field (r ∷ results) =
    let others = widest field results in
    if ltb others (len (field r)) then len (field r) else others

-- The widths of the first three columns.
pub record Widths : Type 0 where
  pub col_key : ℕ
  pub col_val : ℕ
  pub col_sta : ℕ

unfoldable pub widths_of : List MetricResult → Widths
widths_of sendable = record {
  col_key = widest (λ r. r.key) sendable;
  col_val = widest (λ r. value_text r.value) sendable;
  col_sta = widest (λ r. status_text r.status) sendable;
}

-- The part of a line before its last column.
unfoldable pub columns : Widths → String → String → String → String
columns w key value status = append (ljust w.col_key key) (
    append "  "
      (append (ljust w.col_val value) (append "  " (append (ljust w.col_sta status) "  "))))

unfoldable pub row_start : Widths → MetricResult → String
row_start w r = columns w r.key (value_text r.value) (status_text r.status)

unfoldable pub rows_text : Widths → List MetricResult → String
rows_text w [] = ""
rows_text w (r ∷ results) =
    append (row_start w r) (append r.collector (append "\n" (rows_text w results)))

-- The table: the header, a line of dashes as long, and a row for each result.
unfoldable pub table_text : List MetricResult → String
table_text sendable =
    let w = widths_of sendable in
    let header = append (columns w "key" "value" "status") "collector" in
    append header
      (append "\n" (append (repeat_char "-" (len header)) (append "\n" (rows_text w sendable))))

-- `except OSError`, which the other two kinds belong to
unfoldable pub is_os_error : ExcKind → Bool
is_os_error os_error = true
is_os_error file_not_found = true
is_os_error timeout_error = true
is_os_error _ = false

-- The end of a write: an OSError is logged, and any other exception escapes.
unfoldable pub logged : Exc → Result (Unit {0})
unfolding is_os_error
logged e = if is_os_error e.kind then ok tt else err e

after_write : Option Exc → Result (Unit {0})
after_write none = ok tt
after_write (some e) = logged e

module _ (report : Report) where
  -- `with open(path, "w") as fh: …`
  unfoldable pub put_file : Written → Action (Option String) (Unit {0})
  unfolding after_write
  put_file written file = elim report.open_file [
    | ok _ ↦ (after_write written.raised, some written.text)
    | err e ↦ (logged e, file)
  ]

  -- `_write_output`
  unfoldable pub write_output : List MetricResult → String → Action (Option String) (Unit {0})
  write_output results fmt =
      let sendable = keep is_sendable results in
      if fmt == "json"
      then put_file (report.json_dump sendable)
      else if fmt == "csv"
      then put_file (if is_empty sendable then report.stored "" else report.csv_rows sendable)
      else if fmt == "table"
      then put_file
          (report.stored (if is_empty sendable then "(no results)\n" else table_text sendable))
      else pure tt

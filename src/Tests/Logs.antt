-- ===== src/Tests/Logs.antt =====
-- The log collector, on a short file and three lines.
use native.Mathlib.Decide.{ℕ_discrete}
use zabbig.Prelude.{
  ◌≡◌, refl, String, Option, none, some, List, [], ◌∷◌, ◌++◌, ◌==◌, string_eq, nat_eq,
  if◌then◌else◌, Result, ok, raise, value_error, ◌>>=◌,
}
use zabbig.Prelude.Float.{Float, finite, pos, negsuc}
use zabbig.Models.Dynamic.{
  Value, int, float, str, Fields, end, field, Builtins, Group, text, find, get, truthy,
}
use zabbig.Log.{Entry, eval_one_condition, numeric, resolve_result_with_host, or_none, number_of}
use zabbig.Log.Conditions.{Misses}
use zabbig.Log.Strategies.{Scored, IsMax, IsMin, resolve_result_with_host-extreme}
use zabbig.Log.Scan.{Bytes, scan, scan_lines, read_lines, push, eval_line, passes, line_entries}
use zabbig.Log.Plain.{resolve_result, values_of, value_only, resolve_result-with_host}
use zabbig.Log.Resume.{scan-resumes}

sample_float : Value → Result Float
sample_float (int n) = ok (finite n)
sample_float (float x) = ok x
sample_float v = raise value_error ""

-- A pattern matches the line that it is.
sample_search : Value → String → Result (Option Group)
sample_search (str p) line = ok (if p == line then some (text line) else none)
sample_search v line = raise value_error ""

abbrev builtins : Builtins
builtins = record { to_str = λ v. ""; to_float = sample_float; search = sample_search }

abbrev when_error : Fields
when_error = field "when" (str "error") (field "value" (int (pos 2)) end)

abbrev when_warning : Fields
when_warning = field "when" (str "warning") (field "value" (int (pos 1)) end)

error-Misses : Misses builtins "warning" when_error
unfolding eval_one_condition find get or_none truthy sample_search string_eq
error-Misses = refl

abbrev sample_entries : List Entry
sample_entries = (str "x", none) ∷ (int (pos 5), some (str "db1")) ∷ (int (negsuc 2), none) ∷ []

numeric_entries :
    numeric builtins ((int (pos 3), none) ∷ sample_entries)
    ≡ ok (
        (finite (pos 3), none)
        ∷ (finite (pos 5), some (str "db1"))
        ∷ (finite (negsuc 2), none)
        ∷ [])
unfolding numeric number_of sample_float
numeric_entries = refl

abbrev later_numbers : List Scored
later_numbers = (finite (pos 5), some (str "db1")) ∷ (finite (negsuc 2), none) ∷ []

resolve_result_with_host-extreme_example :
    ((m : Scored) × (resolve_result_with_host builtins ((int (pos 3), none) ∷ sample_entries) "max"
        ≡ ok (some (float m.0, m.1)))
      × IsMax m ((finite (pos 3), none) ∷ later_numbers))
    × ((m : Scored) × (resolve_result_with_host builtins
            ((int (pos 3), none) ∷ sample_entries)
            "min"
          ≡ ok (some (float m.0, m.1)))
        × IsMin m ((finite (pos 3), none) ∷ later_numbers))
resolve_result_with_host-extreme_example =
    resolve_result_with_host-extreme builtins (int (pos 3), none) sample_entries
      (finite (pos 3), none) later_numbers numeric_entries (tt, (tt, (tt, tt)))

-- One line, and the beginning of a second.
abbrev first_bytes : Bytes
first_bytes = 65 ∷ 10 ∷ 66 ∷ []

abbrev more_bytes : Bytes
more_bytes = 67 ∷ 10 ∷ []

first_run : scan builtins (λ line. ok "x") none [] 0 first_bytes ≡ ok ((int (pos 1), none) ∷ [], 2)
unfolding scan scan_lines read_lines push eval_line passes line_entries nat_eq ℕ_discrete
first_run = refl

scan-resumes_example : scan builtins (λ line. ok "x") none [] 0 (first_bytes ++ more_bytes) ≡ (
    scan builtins (λ line. ok "x") none [] 2 (first_bytes ++ more_bytes) >>= λ x.
    ok (((int (pos 1), none) ∷ []) ++ x.0, x.1))
scan-resumes_example =
    scan-resumes builtins (λ line. ok "x") none [] first_bytes more_bytes ((int (pos 1), none) ∷ [])
      2 first_run

resolve_result-with_host_example :
    resolve_result builtins (values_of sample_entries) "max"
    ≡ value_only (resolve_result_with_host builtins sample_entries "max")
resolve_result-with_host_example = resolve_result-with_host builtins sample_entries "max"

-- ===== src/Probe/Mirror.antt =====
-- probe.py, `_eval_http_body`, which is meant to mirror the log collector.
use zabbig.Prelude.{
  ℕ, ◌+◌, ◌≡◌, refl, ap, ◌∙◌, String, Bool, true, false, Option, none, some, List, [], ◌∷◌, ◌++◌,
  map, All, length, if◌then◌else◌, Result, ok, err, ◌>>=◌,
}
use zabbig.Models.Dynamic.{Value, null, bool, int, float, str, list, dict, Fields, Builtins, Casts}
use zabbig.Log.{Entry}
use zabbig.Log.Scan.{Bytes, passes, appended, line_entries, eval_line, scan_lines}
use zabbig.Probe.{Reach, is_wanted, with_entry, entry_of, body_entries}

module _ (c : Casts) (b : Builtins) (reach : Reach) (now : ℕ) (decode : Bytes → Result String)
    (pattern : Option Value) where
  passes-is_wanted :
      (line : String) → passes b decode pattern line ≡ is_wanted c b reach now pattern line
  unfolding passes is_wanted
  passes-is_wanted line = by_pattern pattern
    where
      by_pattern :
          (pattern : Option Value)
          → passes b decode pattern line ≡ is_wanted c b reach now pattern line
      by_pattern none = refl
      by_pattern (some p) = refl

  -- What one wanted line contributes to the entries of a file.
  line_entries-entry_of :
      (conditions : List Fields) (line : String)
      → line_entries b decode pattern conditions line
        ≡ (entry_of c b reach now conditions line >>= λ e. ok (appended b decode pattern e))
  unfolding line_entries entry_of appended
  line_entries-entry_of [] line = refl
  line_entries-entry_of (d ∷ conditions) line = refl

  append-with_entry :
      (e : Option Entry) (es : List Entry)
      → appended b decode pattern e ++ es ≡ with_entry c b reach now e es
  unfolding appended with_entry
  append-with_entry none es = refl
  append-with_entry (some (null, host)) es = refl
  append-with_entry (some (bool v, host)) es = refl
  append-with_entry (some (int v, host)) es = refl
  append-with_entry (some (float v, host)) es = refl
  append-with_entry (some (str v, host)) es = refl
  append-with_entry (some (list v, host)) es = refl
  append-with_entry (some (dict v, host)) es = refl

  -- One round of the two loops.
  round :
      (wanted : Result Bool) (entry : Result (Option Entry)) (rest : Result (List Entry × ℕ))
      → (((wanted >>= λ w. if w then (entry >>= λ e. ok (appended b decode pattern e)) else ok [])
            >>= λ es. rest >>= λ r. ok (es ++ r.0, r.1))
          >>= λ (r : List Entry × ℕ). ok r.0)
        ≡ (wanted >>= λ w. (if w then entry else ok none) >>= λ e.
            (rest >>= λ r. ok r.0) >>= λ es. ok (with_entry c b reach now e es))
  unfolding appended
  round (err x) entry rest = refl
  round (ok true) (err x) rest = refl
  round (ok true) (ok e) (err x) = refl
  round (ok true) (ok e) (ok r) = ap ok (append-with_entry e r.0)
  round (ok false) entry (err x) = refl
  round (ok false) entry (ok r) = ap ok (append-with_entry none r.0)

  eval_line-entry_of :
      (encode : String → Bytes)
      → (conditions : List Fields) (line : String) → decode (encode line) ≡ ok line
      → eval_line b decode pattern conditions (encode line) ≡ (
          is_wanted c b reach now pattern line >>= λ w.
          if w
          then (entry_of c b reach now conditions line >>= λ e. ok (appended b decode pattern e))
          else ok [])
  unfolding eval_line
  eval_line-entry_of encode conditions line known =
      ap
        (λ (r : Result String). r >>= λ l. passes b decode pattern l >>= λ w.
          if w then line_entries b decode pattern conditions l else ok [])
        known
      ∙ ap
          (λ (r : Result Bool).
            r >>= λ w. if w then line_entries b decode pattern conditions line else ok [])
          (passes-is_wanted line)
      ∙ ap
          (λ (found : Result (List Entry)).
            is_wanted c b reach now pattern line >>= λ w. if w then found else ok [])
          (line_entries-entry_of conditions line)

  -- An HTTP body mirrors a log file: for the same lines, pattern and conditions the two collectors find the
  -- same entries, or raise the same exception, if the lines of the file decode to those of the body.
  pub body_entries-scan_lines :
      (encode : String → Bytes)
      → (conditions : List Fields) (offset : ℕ) (lines : List String)
      → All (λ (line : String). decode (encode line) ≡ ok line) lines
      → (scan_lines b decode pattern conditions offset (map encode lines)
          >>= λ (r : List Entry × ℕ). ok r.0)
        ≡ body_entries c b reach now pattern conditions lines
  unfolding scan_lines body_entries eval_line
  body_entries-scan_lines encode conditions offset [] h = refl
  body_entries-scan_lines encode conditions offset (line ∷ lines) (h, hs) =
      let rest =
        scan_lines b decode pattern conditions (offset + length (encode line)) (map encode lines) in
      let wanted = is_wanted c b reach now pattern line in
      let entry = entry_of c b reach now conditions line in
      ap
        (λ (found : Result (List Entry)).
          (found >>= λ es. rest >>= λ (r : List Entry × ℕ). ok (es ++ r.0, r.1))
          >>= λ (r : List Entry × ℕ). ok r.0)
        (eval_line-entry_of encode conditions line h)
      ∙ round wanted entry rest
      ∙ ap
          (λ (others : Result (List Entry)). wanted >>= λ w. (if w then entry else ok none) >>= λ e.
            others >>= λ es. ok (with_entry c b reach now e es))
          (body_entries-scan_lines encode conditions (offset + length (encode line)) lines hs)

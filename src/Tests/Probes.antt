-- ===== src/Tests/Probes.antt =====
-- probe.py on two lines of a body.
use zabbig.Prelude.{
  ℕ, ◌≡◌, refl, String, false, none, some, List, [], ◌∷◌, map, length, ltb, if◌then◌else◌, Result,
  ok, raise, runtime_error, ◌>>=◌,
}
use zabbig.Prelude.Float.{pos, zero_float}
use zabbig.Prelude.Text.{codes}
use zabbig.Models.Dynamic.{int, str, Fields, end, field, Builtins, no_such_group}
use zabbig.Log.{Entry}
use zabbig.Log.Scan.{Bytes, scan_lines}
use zabbig.Probe.{Reach, unknown, body_entries}
use zabbig.Probe.Mirror.{body_entries-scan_lines}
use zabbig.Tests.Configs.{casts, to_text, to_real}

-- A search that finds every pattern in a text of less than three characters.
abbrev finder : Builtins
finder = record {
  to_str = to_text;
  to_float = to_real;
  search = λ pattern line. ok (if ltb (length (codes line)) 3 then some no_such_group else none);
}

abbrev offline : Reach
offline = record {
  connects = λ host port timeout. false;
  parse_url = λ url. raise runtime_error "";
  handshake = λ host port timeout. unknown;
  request = λ method url headers timeout mode limit. raise runtime_error "";
  split_lines = λ body. body ∷ [];
  elapsed = zero_float;
  whole = pos 0;
}

-- A line as its length.
abbrev measured : String → Bytes
measured line = length (codes line) ∷ []

abbrev named : Bytes → Result String
named [] = raise runtime_error ""
named (n ∷ bytes) = if ltb n 3 then ok "up" else ok "down"

abbrev up_condition : Fields
up_condition = field "when" (str "up") (field "value" (int (pos 5)) end)

body_entries-scan_lines_example :
    (scan_lines finder named none (up_condition ∷ []) 0 (map measured ("up" ∷ "down" ∷ []))
      >>= λ (r : List Entry × ℕ). ok r.0)
    ≡ body_entries casts finder offline 7 none (up_condition ∷ []) ("up" ∷ "down" ∷ [])
body_entries-scan_lines_example =
    body_entries-scan_lines casts finder offline 7 named none measured (up_condition ∷ []) 0
      ("up" ∷ "down" ∷ []) (refl, (refl, tt))

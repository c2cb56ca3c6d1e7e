-- ===== src/Main/Output/Escapes.antt =====
-- main.py, `_write_output`: what an exception of the report does to a cycle.
use zabbig.Prelude.{
  ◌≡◌, refl, String, true, false, Option, some, List, ◌++◌, keep, Result, ok, err, Exc, ◌==◌,
  string_eq, same_text,
}
use zabbig.Models.{ClientConfig, MetricDef, MetricResult, RunSummary, is_sendable}
use zabbig.Runner.{World, run_all_collectors}
use zabbig.Sender.{Network}
use zabbig.Main.{run_async, Clock}
use zabbig.Main.Output.{Report, is_os_error, logged, put_file, write_output}

-- The end of `_write_output` for JSON, as `run_async` meets it.
abbrev pub json_output : Report → Option String → List MetricResult → Result (Unit {0})
json_output report file results = (write_output report results "json" file).0

write_output-logged :
    (report : Report) (file : Option String) (results : List MetricResult) (e : Exc) (fmt : String)
    → (fmt == "json") ≡ true
    → report.open_file ≡ ok tt
    → (report.json_dump (keep is_sendable results)).raised ≡ some e
    → (write_output report results fmt file).0 ≡ logged e
unfolding write_output put_file
write_output-logged report file results e fmt json opens raises = rw (json, opens, raises) refl

-- If the JSON of the report raises, an OSError leaves the cycle as it would be without a report. Any
-- other exception, such as the TypeError for a tag that YAML has read as a date, ends the cycle: it is
-- raised, after all metrics have been collected, and nothing has been sent.
pub run_async-json_output :
    (net : Network) (config : ClientConfig) (w : World) (report : Report) (file : Option String)
    (clock : Clock) (ms : List MetricDef) (s : RunSummary) (st : net.State)
    (raw : List MetricResult × List MetricResult) (e : Exc)
    → run_all_collectors w config ms ≡ ok raw
    → report.open_file ≡ ok tt
    → (report.json_dump (keep is_sendable (raw.0 ++ raw.1))).raised ≡ some e
    → (is_os_error e.kind ≡ true
        → run_async net config w (json_output report file) clock ms s st
          ≡ run_async net config w (λ results. ok tt) clock ms s st)
      × (is_os_error e.kind ≡ false
          → run_async net config w (json_output report file) clock ms s st ≡ (err e, st))
unfolding run_async logged
run_async-json_output net config w report file clock ms s st raw e collects opens raises =
    let ends =
      write_output-logged report file (raw.0 ++ raw.1) e "json" (same_text "json") opens raises in
    ((λ harmless. rw (collects, ends, harmless) refl), (λ other. rw (collects, ends, other) refl))

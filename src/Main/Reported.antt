-- ===== src/Main/Reported.antt =====
-- main.py: what the self-monitoring items say of a cycle that has failed.
use zabbig.Prelude.{
  ℕ, ◌≤◌, ◌≡◌, refl, ap, ◌∙◌, Bool, true, false, String, List, ◌∷◌, ◌++◌, drop, if◌then◌else◌,
  Result, ok,
}
use zabbig.Prelude.State.{Action, pure, ◌>>=◌}
use zabbig.Prelude.Float.{pos}
use zabbig.Models.{ClientConfig, MetricDef, MetricResult, RunSummary}
use zabbig.Router.{route}
use zabbig.Runner.{World, run_all_collectors, update_summary}
use zabbig.Runner.Summary.{update_summary_lem}
use zabbig.Sender.{Network, self_result, self_results, send_results, send_self_metrics}
use zabbig.Sender.Delivery.{IsHonest}
use zabbig.Main.{conclude, deliver, report, run_async, Clock}
use zabbig.Main.Cycle.{delivered, deliver-Delivers}

update_summary-success :
    (s : RunSummary) (immediate batch : List MetricResult)
    → (update_summary s immediate batch).success ≡ s.success
update_summary-success s immediate batch =
    ap (λ (t : RunSummary). t.success) (update_summary_lem s immediate batch).0

first_item :
    (net : Network) (config : ClientConfig) (now : ℕ) (s : RunSummary)
    → s.success ≡ true
    → (rest : List MetricResult) × (self_results net config now s
        ≡ self_result now "self_zabbig_client_run_success" "zabbig.client.run.success" "1" ∷ rest)
unfolding self_results
first_item net config now s e =
    let rest = drop 1 (self_results net config now s) in
    let item : String → MetricResult =
      self_result now "self_zabbig_client_run_success" "zabbig.client.run.success" in
    (rest, ap (λ (b : Bool). item (if b then "1" else "0") ∷ rest) e)

if-true : {A : Type 0} (b : Bool) (x y : A) → b ≡ true → (if b then x else y) ≡ x
if-true true x y e = refl
if-true false x y e = cc

module _ (net : Network) (config : ClientConfig)
    (on : config.features.self_monitoring_metrics ≡ true) where
  -- The last step of a cycle: the items are sent, the first of them the success, and then the counters of
  -- the summary are judged.
  abbrev pub Reports : Clock → RunSummary → net.State → Result (RunSummary × ℕ) × net.State → Type 0
  Reports clock sent st r =
      (rest : List MetricResult) × (r
        ≡ (send_results net config (
                self_result clock.now "self_zabbig_client_run_success" "zabbig.client.run.success"
                  "1"
                ∷ rest)
              >>= (λ _. pure (conclude clock.at_end sent)))
            st)

  report-Reports :
      (clock : Clock) (s : RunSummary) (st : net.State)
      → s.success ≡ true
      → Reports clock s st (report net config clock s st)
  unfolding report send_self_metrics
  report-Reports clock s st e =
      let (rest, first) =
        first_item net config clock.now (record s { duration_ms = clock.before_self }) e in
      (
        rest,
        ap (λ (a : Action net.State (RunSummary × ℕ)). a st) (if-true _ _ _ on)
            ∙ ap
                (λ (items : List MetricResult).
                  (send_results net config items >>= (λ _. pure (conclude clock.at_end s))) st)
                first,
      )

  -- If the servers that answer account for each item, the chunk size is positive, self-monitoring is enabled,
  -- the collectors have given their results and the report raises nothing, then a cycle that starts with
  -- success true ends like this: after the results have been sent, with whatever counts of failures, it
  -- sends the self-monitoring items, of which the first says zabbig.client.run.success is 1, and only then
  -- judges the counters, whatever they are.
  pub run_async-success :
      (w : World) (output : List MetricResult → Result (Unit {0})) (clock : Clock)
      (ms : List MetricDef) (s : RunSummary) (st : net.State) (n : ℕ)
      (raw : List MetricResult × List MetricResult)
      → IsHonest net
      → config.batching.batch_send_max_size ≡ pos n
      → 1 ≤ n
      → s.success ≡ true
      → run_all_collectors w config ms ≡ ok raw
      → output (raw.0 ++ raw.1) ≡ ok tt
      → (let queues = route (raw.0 ++ raw.1) in
          let delivery = deliver net config queues.0 queues.1 (update_summary s raw.0 raw.1) st in
          (sent : RunSummary) × (delivery.0 ≡ ok sent)
          × Reports clock sent delivery.1 (run_async net config w output clock ms s st))
  unfolding run_async
  run_async-success w output clock ms s st n raw honest size positive e collected written =
      let start = update_summary s raw.0 raw.1 in
      let queues = route (raw.0 ++ raw.1) in
      let (c, p, _) =
        deliver-Delivers net config honest n size positive queues.0 queues.1 start st in
      let kept = update_summary-success s raw.0 raw.1 ∙ e in
      (
        delivered start c,
        p,
        rw (collected, written, p)
            (report-Reports clock (delivered start c)
              (deliver net config queues.0 queues.1 start st).1 kept),
      )

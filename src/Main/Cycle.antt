-- ===== src/Main/Cycle.antt =====
-- main.py, `_run_async`: what one collection cycle counts, sends and returns.
use mathlib.Core.Path.{subst}
use zabbig.Prelude.{
  ℕ, ◌+◌, ◌≤◌, ◌≡◌, ◌↔◌, inl, inr, refl, Bool, true, false, not, Bool-cases, List, [], ◌∷◌, ◌++◌,
  length, All, if◌then◌else◌, Result, ok, err, ok-injective, arith,
}
use zabbig.Prelude.State.{Action, pure, ◌>>=◌, and_then}
use zabbig.Prelude.Float.{pos}
use zabbig.Models.{ClientConfig, MetricDef, MetricResult, RunSummary}
use zabbig.Sender.{Network, send_self_metrics, self_results, send_results}
use zabbig.Sender.Delivery.{IsHonest, send_batch-AddUp, send_immediate-AddUp, send_results-AddUp}
use zabbig.Runner.{World, run_all_collectors, update_summary}
use zabbig.Runner.{in_time}
use zabbig.Runner.Tasks.{IsServed, run_all_collectors-Each}
use zabbig.Router.{route}
use zabbig.Main.{conclude, send_separately, send_if, deliver, report, run_async, Clock}

-- The counters that tell whether a run has succeeded.
abbrev pub IsClean : RunSummary → Type 0
IsClean s = (s.collected_failed ≡ 0) × (s.collected_timeout ≡ 0) × (s.sender_failures ≡ 0)

-- The exit code of a cycle: 0 exactly if the three counters are 0, else 1; `success` says the same.
abbrev pub ExitFits : RunSummary × ℕ → Type 0
ExitFits (s, code) = ((code ≡ 0) ↔ IsClean s) × ((s.success ≡ true) ↔ IsClean s) × (code ≤ 1)

conclude-ExitFits : (d : _) (s : RunSummary) → ExitFits (conclude d s)
unfolding conclude
conclude-ExitFits d s = (
  ((λ e. ground arith), (λ (a, b, c). ground arith)),
  ((λ e. ground arith), (λ (a, b, c). ground arith)),
  ground arith,
)

-- The summary after some sends.
abbrev pub delivered : RunSummary → ℕ × ℕ × ℕ → RunSummary
delivered s (batch, immediate, failed) = record s {
  sent_batch = s.sent_batch + batch;
  sent_immediate = s.sent_immediate + immediate;
  sender_failures = s.sender_failures + failed;
}

abbrev total : ℕ × ℕ × ℕ → ℕ
total (a, b, c) = a + b + c

module _ (net : Network) (config : ClientConfig) (honest : IsHonest net) (n : ℕ)
    (size : config.batching.batch_send_max_size ≡ pos n) (positive : 1 ≤ n) where
  -- Sends that go through and add up to a number of results.
  abbrev Delivers : RunSummary → ℕ → Result RunSummary → Type 0
  Delivers s k r = (c : ℕ × ℕ × ℕ) × (r ≡ ok (delivered s c)) × (total c ≡ k)

  send_separately-Delivers :
      (immediate : List MetricResult) (s : RunSummary) (st : net.State)
      → Delivers s
          (if config.batching.flush_immediate_separately then length immediate else 0)
          (send_separately net config immediate s st).0
  unfolding send_separately
  send_separately-Delivers [] s st = ((0, 0, 0), ground arith, ground arith)
  send_separately-Delivers (r ∷ rs) s st =
      elim (Bool-cases config.batching.flush_immediate_separately) [
        | inr off ↦ ((0, 0, 0), ground arith, ground arith)
        | inl on ↦
            let (c, p, k) = send_immediate-AddUp net config honest (r ∷ rs) s st in
            ((0, c.0, c.1), ground arith, ground (arith, k))
      ]

  send_if-Delivers :
      (wanted : Bool) (results : List MetricResult) (s : RunSummary) (st : net.State)
      → Delivers s (if wanted then length results else 0) (send_if net config wanted results s st).0
  unfolding send_if
  send_if-Delivers false results s st = ((0, 0, 0), ground arith, refl)
  send_if-Delivers true [] s st = ((0, 0, 0), ground arith, refl)
  send_if-Delivers true (r ∷ rs) s st =
      let (c, p, k) = send_batch-AddUp net config honest (r ∷ rs) s st n size positive in
      ((c.0, 0, c.1), ground arith, omega (arith, k))

  both :
      (first : Action net.State RunSummary) (rest : RunSummary → Action net.State RunSummary)
      (s : RunSummary) (st : net.State) (j k : ℕ)
      → Delivers s j (first st).0
      → ((s' : RunSummary) (st' : net.State) → Delivers s' k (rest s' st').0)
      → Delivers s (j + k) ((first >>= rest) st).0
  both first rest s st j k (c, p, n) h =
      let (d, q, m) = h (delivered s c) (first st).1 in
      ((c.0 + d.0, c.1 + d.1, c.2 + d.2), ground arith, omega (arith, n, m))

  -- If every server that answers accounts for each item and the chunk size is positive, the sends of
  -- a cycle raise nothing, and every result of the two queues is counted exactly once, as sent or as
  -- failed; nothing else of the summary changes.
  pub deliver-Delivers :
      (batch immediate : List MetricResult) (s : RunSummary) (st : net.State)
      → (c : ℕ × ℕ × ℕ) × ((deliver net config batch immediate s st).0 ≡ ok (delivered s c))
        × (c.0 + c.1 + c.2 ≡ length batch + length immediate)
  unfolding deliver
  deliver-Delivers batch immediate s st =
      let flush = config.batching.flush_immediate_separately in
      let last = send_if net config (not flush) immediate in
      let now = if flush then length immediate else 0 in
      let later = if not flush then length immediate else 0 in
      let (c, p, k) =
        both (send_separately net config immediate s)
          (λ s1. send_if net config true batch s1 >>= last) s st now (length batch + later)
          (send_separately-Delivers immediate s st)
          λ s1 st1.
            both (send_if net config true batch s1) last s1 st1 (length batch) later
              (send_if-Delivers true batch s1 st1) (send_if-Delivers (not flush) immediate) in
      (c, p, ground (arith, k))

-- What holds of every result of the last step holds of the whole.
ends :
    {S A B : Type 0} (P : B → Type 0) (r : Result A) (st : S) (rest : A → Action S B)
    → ((a : A) (st' : S) (b : B) → (rest a st').0 ≡ ok b → P b)
    → (b : B) → (and_then r rest st).0 ≡ ok b
    → P b
ends P (ok a) st rest h b e = h a st b e
ends P (err x) st rest h b e = cc

report-conclude :
    (net : Network) (config : ClientConfig) (clock : Clock) (s : RunSummary) (st : net.State)
    (r : RunSummary × ℕ)
    → (report net config clock s st).0 ≡ ok r
    → conclude clock.at_end s ≡ r
unfolding report send_self_metrics
report-conclude net config clock s st r e = by_flag config.features.self_monitoring_metrics e
  where
    s' : RunSummary
    s' = record s { duration_ms = clock.before_self }

    last :
        (q : Result (ℕ × ℕ)) (st' : net.State)
        → (and_then q (λ c. pure (conclude clock.at_end s)) st').0 ≡ ok r
        → conclude clock.at_end s ≡ r
    last (ok c) st' e = ok-injective _ _ e
    last (err x) st' e = cc

    by_flag :
        (b : Bool)
        → ((if b
              then send_results net config (self_results net config clock.now s')
                >>= (λ c. pure (conclude clock.at_end s))
              else pure (conclude clock.at_end s))
            st).0
          ≡ ok r
        → conclude clock.at_end s ≡ r
    by_flag false e = ok-injective _ _ e
    by_flag true e =
        last (send_results net config (self_results net config clock.now s') st).0
          (send_results net config (self_results net config clock.now s') st).1 e

-- What a cycle returns, if it does.
pub run_async-ExitFits :
    (net : Network) (config : ClientConfig) (w : World)
    (output : List MetricResult → Result (Unit {0})) (clock : Clock) (ms : List MetricDef)
    (s : RunSummary) (st : net.State) (r : RunSummary × ℕ)
    → (run_async net config w output clock ms s st).0 ≡ ok r
    → ExitFits r
unfolding run_async
run_async-ExitFits net config w output clock ms s st r e =
    ends ExitFits (run_all_collectors w config ms) st _
      (λ raw st1. ends ExitFits (output (raw.0 ++ raw.1)) st1 _ (λ _ st2.
        ends ExitFits _ _ _ (λ sent st3 b e2.
          subst ExitFits (report-conclude net config clock sent st3 b e2)
            (conclude-ExitFits clock.at_end sent))))
      r e

report-returns :
    (net : Network) (config : ClientConfig) (clock : Clock) (s : RunSummary) (st : net.State)
    → IsHonest net
    → (r : RunSummary × ℕ) × ((report net config clock s st).0 ≡ ok r)
unfolding report send_self_metrics
report-returns net config clock s st honest =
    let (c, p, _) =
      send_results-AddUp net config honest
        (self_results net config clock.now (record s { duration_ms = clock.before_self })) st in
    (conclude clock.at_end s, ground arith)

-- If every metric's collector is registered and gives one result or fails in any way but by
-- cancellation, the batch window is kept, no report is asked for or its writing raises nothing, the
-- servers that answer account for each item, and the chunk size is positive, then a cycle that is not
-- cut off returns, whatever the servers do. Its exit code is 0 or 1, and 0 exactly if the summary that it
-- returns counts no failed result, no timed-out result and no failure to send; `success` in the summary says
-- the same. A collector that raised or timed out is counted by the status that its error policy gives the
-- result: with "skip" or "fallback" that is neither failed nor timed out.
pub run_async-Completes :
    (net : Network) (config : ClientConfig) (w : World)
    (output : List MetricResult → Result (Unit {0})) (clock : Clock) (ms : List MetricDef)
    (s : RunSummary) (st : net.State) (n : ℕ)
    → IsHonest net
    → config.batching.batch_send_max_size ≡ pos n
    → 1 ≤ n
    → All (IsServed w config) ms
    → w.window ≡ in_time
    → ((results : List MetricResult) → output results ≡ ok tt)
    → (r : RunSummary × ℕ) × ((run_async net config w output clock ms s st).0 ≡ ok r) × ExitFits r
unfolding run_async
run_async-Completes net config w output clock ms s st n honest size positive served kept written =
    let (raw, p, _, _, _) = run_all_collectors-Each w config ms served kept in
    let queues = route (raw.0 ++ raw.1) in
    let (c, q, _) =
      deliver-Delivers net config honest n size positive queues.0 queues.1
        (update_summary s raw.0 raw.1) st in
    let (r, e) =
      report-returns net config clock (delivered (update_summary s raw.0 raw.1) c)
        (deliver net config queues.0 queues.1 (update_summary s raw.0 raw.1) st).1 honest in
    let whole : (run_async net config w output clock ms s st).0 ≡ ok r =
      ground (arith, written (raw.0 ++ raw.1)) in
    (r, whole, run_async-ExitFits net config w output clock ms s st r whole)

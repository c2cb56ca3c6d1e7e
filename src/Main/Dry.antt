-- ===== src/Main/Dry.antt =====
-- main.py, `--dry-run`: the network in a collection cycle.
use zabbig.Prelude.{
  ◌≡◌, refl, ◌∙◌, Bool, true, false, List, [], ◌∷◌, ◌++◌, if◌then◌else◌, Result, ok, err, arith,
}
use zabbig.Prelude.State.{Action, lift, ◌>>=◌, and_then}
use zabbig.Models.{ClientConfig, MetricDef, MetricResult, RunSummary}
use zabbig.Sender.{
  Network, send_results, send_chunks, send_batch, send_immediate, send_self_metrics, chunks,
  add_batch,
}
use zabbig.Runner.{World, run_all_collectors}
use zabbig.Main.{send_separately, send_if, deliver, report, run_async, Clock}

-- An action that leaves its state alone.
pub record IsIdle {S A : Type 0} (action : Action S A) : Type 0 where
  pub apply : (s : S) → (action s).1 ≡ s

module _ {S A B : Type 0} where
  and_then-IsIdle :
      (rest : A → Action S B)
      → ((a : A) → IsIdle (rest a))
      → (r : Result A) (s : S) → (and_then r rest s).1 ≡ s
  and_then-IsIdle rest k (ok a) s = (k a).apply s
  and_then-IsIdle rest k (err e) s = refl

  >>=-IsIdle :
      {first : Action S A} {rest : A → Action S B}
      → IsIdle first
      → ((a : A) → IsIdle (rest a))
      → IsIdle (first >>= rest)
  >>=-IsIdle {first} {rest} f k = record {
    apply = λ s. and_then-IsIdle rest k (first s).0 (first s).1 ∙ f.apply s;
  }

module _ {S A : Type 0} where
  lift-IsIdle : (r : Result A) → IsIdle (lift {S = S} r)
  lift-IsIdle r = record { apply = λ s. refl }

  if-IsIdle : (b : Bool) {x y : Action S A} → IsIdle x → IsIdle y → IsIdle (if b then x else y)
  if-IsIdle true h k = h
  if-IsIdle false h k = k

module _ (net : Network) (config : ClientConfig) (dry : config.runtime.dry_run ≡ true) where
  send_results-IsIdle : (rs : List MetricResult) → IsIdle (send_results net config rs)
  unfolding send_results
  send_results-IsIdle rs = record { apply = λ s. ground arith }

  send_chunks-IsIdle :
      (cs : List (List MetricResult)) (s : RunSummary) → IsIdle (send_chunks net config s cs)
  unfolding send_chunks
  send_chunks-IsIdle [] s = lift-IsIdle (ok s)
  send_chunks-IsIdle (c ∷ cs) s =
      >>=-IsIdle (send_results-IsIdle c) (λ counts. send_chunks-IsIdle cs (add_batch s counts))

  send_batch-IsIdle :
      (rs : List MetricResult) (s : RunSummary) → IsIdle (send_batch net config rs s)
  unfolding send_batch
  send_batch-IsIdle [] s = lift-IsIdle (ok s)
  send_batch-IsIdle (r ∷ rs) s =
      >>=-IsIdle (lift-IsIdle (chunks config.batching.batch_send_max_size (r ∷ rs)))
        (λ cs. send_chunks-IsIdle cs s)

  send_immediate-IsIdle :
      (rs : List MetricResult) (s : RunSummary) → IsIdle (send_immediate net config rs s)
  unfolding send_immediate
  send_immediate-IsIdle [] s = lift-IsIdle (ok s)
  send_immediate-IsIdle (r ∷ rs) s =
      >>=-IsIdle (send_results-IsIdle (r ∷ rs)) (λ counts. lift-IsIdle _)

  deliver-IsIdle :
      (batch immediate : List MetricResult) (s : RunSummary)
      → IsIdle (deliver net config batch immediate s)
  unfolding deliver send_separately send_if
  deliver-IsIdle batch immediate s =
      >>=-IsIdle (if-IsIdle _ (send_immediate-IsIdle immediate s) (lift-IsIdle (ok s))) λ s1.
        >>=-IsIdle (if-IsIdle _ (send_batch-IsIdle batch s1) (lift-IsIdle (ok s1)))
          λ s2. if-IsIdle _ (send_batch-IsIdle immediate s2) (lift-IsIdle (ok s2))

  report-IsIdle : (clock : Clock) (s : RunSummary) → IsIdle (report net config clock s)
  unfolding report send_self_metrics
  report-IsIdle clock s =
      if-IsIdle config.features.self_monitoring_metrics
        (>>=-IsIdle (send_results-IsIdle _) (λ counts. lift-IsIdle _)) (lift-IsIdle _)

  -- In a dry run a whole collection cycle contacts no Zabbix server, neither for metrics nor for the
  -- self-monitoring items: the network is as before. What the collectors themselves do, the report file and
  -- the files of state are not part of the statement.
  pub run_async-dry :
      (w : World) (output : List MetricResult → Result (Unit {0})) (clock : Clock)
      (ms : List MetricDef) (s : RunSummary) (st : net.State)
      → (run_async net config w output clock ms s st).1 ≡ st
  unfolding run_async
  run_async-dry w output clock ms s st =
      (>>=-IsIdle (lift-IsIdle (run_all_collectors w config ms)) (λ raw.
          >>=-IsIdle (lift-IsIdle (output (raw.0 ++ raw.1)))
            (λ _. >>=-IsIdle (deliver-IsIdle _ _ _) (λ sent. report-IsIdle clock sent)))).apply
        st

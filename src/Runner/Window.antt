-- ===== src/Runner/Window.antt =====
-- runner.py: the batch window.
use mathlib.Core.Path.{subst₂}
use zabbig.Prelude.{
  sym, >>=-Raises_left, ◌≡◌, Raises, >>=-Raises, cancelled_error, List, [], ◌∷◌, ◌++◌, arith,
}
use zabbig.Models.{ClientConfig, MetricDef}
use zabbig.Runner.{
  World, Progress, cancelled, expired, after_window, drain, collect_batch, batch_metrics,
  run_all_collectors, gather, immediate_metrics,
}

module _ (w : World) (config : ClientConfig) (progress : MetricDef → Progress) where
  drain-Raises :
      (xs ys : List MetricDef) (m : MetricDef)
      → progress m ≡ cancelled
      → Raises (drain w config progress (xs ++ m ∷ ys))
  unfolding drain after_window
  drain-Raises [] ys m c = (record { kind = cancelled_error; message = "" }, ground arith)
  drain-Raises (x ∷ xs) ys m c =
      >>=-Raises (after_window w config x (progress x)) _ (λ group.
        >>=-Raises_left (drain w config progress (xs ++ m ∷ ys)) _ (drain-Raises xs ys m c))

  -- If the batch window expires and the task of a batch metric has been cancelled, run_all_collectors
  -- raises.
  pub run_all_collectors-Raises :
      (metrics xs ys : List MetricDef) (m : MetricDef)
      → batch_metrics metrics ≡ xs ++ m ∷ ys
      → w.window ≡ expired progress
      → progress m ≡ cancelled
      → Raises (run_all_collectors w config metrics)
  unfolding run_all_collectors collect_batch
  run_all_collectors-Raises metrics xs ys m split e c =
      >>=-Raises (gather w config (immediate_metrics metrics)) _ λ immediate_results.
        >>=-Raises_left (collect_batch w config w.window (batch_metrics metrics)) _ (
          subst₂ (λ b l. Raises (collect_batch w config b l)) (sym e) (sym split)
            (drain-Raises xs ys m c))

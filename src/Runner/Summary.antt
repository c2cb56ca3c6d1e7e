-- ===== src/Runner/Summary.antt =====
-- runner.py, `update_summary`: the counters against the results.
use zabbig.Prelude.{ℕ, ◌+◌, ◌≡◌, refl, List, [], ◌∷◌, ◌++◌, keep, length, ◌==◌, arith, ◌∙◌, ◌⊎◌}
use zabbig.Models.{MetricResult, RunSummary, Status, status_eq}
use zabbig.Runner.{count_result, count_results, update_summary}

-- How many results have a status.
abbrev pub count : Status → List MetricResult → ℕ
count status rs = length (keep (λ r. r.status == status) rs)

-- The summary with the results counted in.
abbrev pub counted : RunSummary → List MetricResult → RunSummary
counted s rs = record s {
  collected_failed = s.collected_failed + count Status.failed rs;
  collected_timeout = s.collected_timeout + count Status.timeout rs;
  skipped = s.skipped + count Status.skipped rs;
  collected_ok = s.collected_ok + (count Status.ok rs + count Status.fallback rs);
}

count_results_lem : (s : RunSummary) (rs : List MetricResult) → count_results s rs ≡ counted s rs
unfolding count_results keep count_result
count_results_lem s [] = ground arith
count_results_lem s (r ∷ rs) = count_results_lem (count_result s r.status) rs ∙ ground arith

cases :
    (t : Status)
    → (t ≡ Status.failed)
      ⊎ (t ≡ Status.timeout)
      ⊎ (t ≡ Status.skipped)
      ⊎ (t ≡ Status.ok)
      ⊎ (t ≡ Status.fallback)
cases t = ground arith

all_counted :
    (rs : List MetricResult)
    → count Status.failed rs
        + count Status.timeout rs
        + count Status.skipped rs
        + (count Status.ok rs + count Status.fallback rs)
      ≡ length rs
unfolding keep
all_counted [] = refl
all_counted (r ∷ rs) = ground (arith, all_counted rs, cases r.status)

-- update_summary adds to each counter the number of results with its status ("ok" and "fallback"
-- count as collected), changes nothing else, and counts every result once.
pub update_summary_lem :
    (s : RunSummary) (immediate batch : List MetricResult)
    → (update_summary s immediate batch ≡ counted s (immediate ++ batch))
      × ((update_summary s immediate batch).collected_failed
            + (update_summary s immediate batch).collected_timeout
            + (update_summary s immediate batch).skipped
            + (update_summary s immediate batch).collected_ok
          ≡ s.collected_failed
            + s.collected_timeout
            + s.skipped
            + s.collected_ok
            + length (immediate ++ batch))
unfolding update_summary
update_summary_lem s immediate batch =
    let e = count_results_lem s (immediate ++ batch) in
    (e, rw e (omega (arith, all_counted (immediate ++ batch))))

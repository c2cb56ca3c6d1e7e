-- ===== src/Runner/Policy.antt =====
-- runner.py, `_apply_error_policy`: what becomes of a failed or timed-out result.
use zabbig.Prelude.{ℕ, ◌≡◌, ◌↔◌, ◌⊎◌, refl, true, Option, none, some, String, arith}
use zabbig.Models.{
  MetricDef, MetricResult, is_sendable, Status, status_eq, ErrorPolicy, make_fallback,
}
use zabbig.Runner.{by_policy, apply_error_policy}

-- A result that a collector failed to give.
abbrev pub HasFailed : MetricResult → Type 0
HasFailed r = ((r.status ≡ Status.failed) ⊎ (r.status ≡ Status.timeout)) × (r.value ≡ none)

by_policy_lem :
    (now : ℕ) (raw : MetricResult) (m : MetricDef) (p : ErrorPolicy) (f : Option String)
    → m.fallback_value ≡ f
    → HasFailed raw
    → (is_sendable (by_policy now raw m p f) ≡ true) ↔ (
        (p ≡ ErrorPolicy.fallback)
        × ((v : String) × (f ≡ some v) × ((by_policy now raw m p f).value ≡ some v)))
unfolding by_policy is_sendable make_fallback
by_policy_lem now raw m ErrorPolicy.skip f e h = (λ s. ground arith, λ s. ground arith)
by_policy_lem now raw m ErrorPolicy.fallback none e h = (λ s. ground arith, λ s. ground arith)
by_policy_lem now raw m ErrorPolicy.fallback (some v) e h =
    (λ s. (refl, (v, refl, e)), λ s. ground arith)
by_policy_lem now raw m ErrorPolicy.mark_failed f e h = (λ s. ground arith, λ s. ground arith)

apply-eq_by_policy :
    (now : ℕ) (raw : MetricResult) (m : MetricDef)
    → HasFailed raw
    → apply_error_policy now raw m ≡ by_policy now raw m m.error_policy m.fallback_value
unfolding apply_error_policy
apply-eq_by_policy now raw m h = ground arith

-- A failed or timed-out result is sent to Zabbix after the policy exactly if the policy of the metric
-- is "fallback" and the metric has a fallback value, and then that is the value that is sent.
pub apply_error_policy_iff :
    (now : ℕ) (raw : MetricResult) (m : MetricDef)
    → HasFailed raw
    → (is_sendable (apply_error_policy now raw m) ≡ true) ↔ (
        (m.error_policy ≡ ErrorPolicy.fallback)
        × ((v : String) × (m.fallback_value ≡ some v)
            × ((apply_error_policy now raw m).value ≡ some v)))
apply_error_policy_iff now raw m h =
    rw (apply-eq_by_policy now raw m h)
      (by_policy_lem now raw m m.error_policy m.fallback_value refl h)

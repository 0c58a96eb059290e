-- ===== src/Policy/Default.antt =====
-- What `DefaultRetryPolicy` of internal/policy/retry.go promises.
use forge_mini.Base.{◌<◌, ◌^◌, String, ◌≡◌, ◌≢◌, ◌↔◌, true, false, arith, eq_iff}
use forge_mini.Base.Machine.{Int64}
use forge_mini.Policy.{default_evaluate}

-- The default policy gives a reason with every verdict.
pub default-GivesReasons : (c : String) (n : Int64) → (default_evaluate c n).reason_code ≢ ""
unfolding default_evaluate
default-GivesReasons c n = ground (
  arith,
  eq_iff "retryable_failure" "",
  eq_iff "retry_budget_exhausted" "",
  eq_iff "retry_not_allowed" "",
)

-- The default policy authorises no retry once a test has failed.
pub default-RetriesOnce :
    (c : String) (n : Int64) → n ≢ 0 → n < 2 ^ 63 → (default_evaluate c n).retry_authorized ≡ false
unfolding default_evaluate
default-RetriesOnce c n h k = ground arith

-- For a count of failed attempts that is not negative, the default policy authorises a retry if and
-- only if the failure class is "flaky_infra" and the count is 0.
pub default_evaluate_iff :
    (c : String) (n : Int64)
    → n < 2 ^ 63
    → ((default_evaluate c n).retry_authorized ≡ true) ↔ ((c ≡ "flaky_infra") × (n ≡ 0))
unfolding default_evaluate
default_evaluate_iff c n k = ground (arith, eq_iff c "flaky_infra")

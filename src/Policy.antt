-- ===== src/Policy.antt =====
-- internal/policy/retry.go: whether a failed test is tried again.
pub mod Default
use forge_mini.Base.{ℕ, ◌*◌, String, Bool, true, false, str_eq, if◌then◌else◌}
use forge_mini.Base.Machine.{Int64, int_lt_one, second}

-- `RetryPolicyResult`
pub record RetryPolicyResult : Type 0 where
  pub retry_authorized : Bool
  pub max_attempts : Int64
  pub backoff : ℕ
  pub reason_code : String

-- the interface `RetryPolicy`
pub record RetryPolicy : Type 0 where
  pub evaluate : String → Int64 → RetryPolicyResult

-- `DefaultRetryPolicy.Evaluate`
unfoldable pub default_evaluate : String → Int64 → RetryPolicyResult
unfolding int_lt_one
default_evaluate failure_class attempt =
    if str_eq failure_class "flaky_infra"
    then (if int_lt_one attempt
        then record {
          retry_authorized = true;
          max_attempts = 1;
          backoff = 2 * second;
          reason_code = "retryable_failure";
        }
        else record {
          retry_authorized = false;
          max_attempts = 1;
          backoff = 0;
          reason_code = "retry_budget_exhausted";
        })
    else record {
      retry_authorized = false;
      max_attempts = 0;
      backoff = 0;
      reason_code = "retry_not_allowed";
    }

-- `DefaultRetryPolicy`
abbrev pub default_retry_policy : RetryPolicy
default_retry_policy = record { evaluate = default_evaluate }

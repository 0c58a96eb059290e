-- ===== src/Workflow/TimerFit.antt =====
-- What the active timer keys of a snapshot say, given its state and its count of failed tests.
use forge_mini.Base.{
  sym, String, ◌≡◌, refl, ◌≢◌, inl, inr, false, List, [], ◌∷◌, ◌++◌, arith, str_eq, eq_iff,
  Bool-cases,
}
use forge_mini.Base.Machine.{Int64}
use forge_mini.Workflow.State.{
  State, retry_pending, TimerType, test_result_timeout, heartbeat_timeout,
}
use forge_mini.Workflow.Decisions.{TimerRequest}
use forge_mini.Workflow.Timers.{timer_key, contains, remove_timer, add_timers, remove_timers}
use forge_mini.Workflow.Keys.{IsOwn, timer_key-injective_at}
use forge_mini.Workflow.ActiveTimers.{
  Distinct, contains-remove_timer, Distinct-append, Distinct-remove_timer, Distinct-add_timers,
  Distinct-remove_timers, contains-remove_timers-false, NoneHas, contains-add_timers-false,
}

-- A key is no test-result timeout of the unit at another station than "test".
pub IsGood : String → String → Type 0
IsGood unit key =
    (station : String)
    → station ≢ "test"
    → str_eq key (timer_key unit test_result_timeout station) ≡ false

str_eq_ne : (s t : String) → s ≢ t → str_eq s t ≡ false
str_eq_ne s t h = ground (arith, eq_iff s t)

pub IsGood-other :
    (unit : String) (a : TimerType) (station : String)
    → IsOwn a
    → a ≢ test_result_timeout
    → IsGood unit (timer_key unit a station)
unfolding IsGood
IsGood-other unit a station own other x ne =
    str_eq_ne _ _
      (λ e. other (timer_key-injective_at unit a test_result_timeout station x own tt e).0)

pub IsGood-test : (unit : String) → IsGood unit (timer_key unit test_result_timeout "test")
unfolding IsGood
IsGood-test unit x ne = str_eq_ne _ _ (λ e.
    ne (
      sym (timer_key-injective_at unit test_result_timeout test_result_timeout "test" x tt tt e).1))

abbrev pub AreGood : String → List TimerRequest → Type 0
AreGood unit [] = Unit
AreGood unit (req ∷ reqs) = IsGood unit req.key × AreGood unit reqs

NoneHas-AreGood :
    (unit station : String) (reqs : List TimerRequest)
    → AreGood unit reqs
    → station ≢ "test"
    → NoneHas (timer_key unit test_result_timeout station) reqs
unfolding IsGood
NoneHas-AreGood unit station [] g ne = tt
NoneHas-AreGood unit station (req ∷ reqs) g ne =
    (g.0 station ne, NoneHas-AreGood unit station reqs g.1 ne)

-- The keys of a unit: none stands twice; while a retry is awaited no test-result timeout is active;
-- and until a test has failed such a timeout is active at the station "test" only.
pub record TimersFit (unit : String) (state : State) (attempts : Int64) (keys : List String)
    : Type 0 where
  pub distinct : Distinct keys
  pub waiting :
      state ≡ retry_pending
      → (station : String) → contains keys (timer_key unit test_result_timeout station) ≡ false
  pub untried :
      attempts ≡ 0
      → (station : String) → station ≢ "test"
      → contains keys (timer_key unit test_result_timeout station) ≡ false
  pub retried : state ≡ retry_pending → attempts ≢ 0

ne_of_test : (station : String) → str_eq station "test" ≡ false → station ≢ "test"
ne_of_test station h = ground (arith, eq_iff station "test")

contains-remove_timer-false :
    (keys : List String) (k t : String)
    → contains keys t ≡ false
    → contains (remove_timer keys k) t ≡ false
contains-remove_timer-false keys k t h = ground (arith, contains-remove_timer keys k t)

module _ (unit : String) where
  -- Good timers are started and any are cancelled, in a step that leads to no retry.
  pub TimersFit-settled :
      (state state' : State) (attempts : Int64) (keys : List String) (reqs : List TimerRequest)
      (cancelled : List String)
      → state' ≢ retry_pending
      → AreGood unit reqs
      → TimersFit unit state attempts keys
      → TimersFit unit state' attempts (remove_timers (add_timers keys reqs) cancelled)
  TimersFit-settled state state' attempts keys reqs cancelled ne good fit = record {
    distinct = Distinct-remove_timers cancelled _ (Distinct-add_timers reqs keys fit.distinct);
    waiting = λ e. absurd (ne e);
    untried = λ z station far. contains-remove_timers-false cancelled _ _ (
        contains-add_timers-false reqs keys _ (NoneHas-AreGood unit station reqs good far)
          (fit.untried z station far));
    retried = λ e. absurd (ne e);
  }

  -- the timers of the test that a failure cancels
  abbrev both : List String
  both = timer_key unit test_result_timeout "test" ∷ timer_key unit heartbeat_timeout "test" ∷ []

  test_cancelled :
      (keys : List String)
      → contains (remove_timers keys both) (timer_key unit test_result_timeout "test") ≡ false
  unfolding remove_timers
  test_cancelled keys =
      let t = timer_key unit test_result_timeout "test" in
      contains-remove_timers-false (timer_key unit heartbeat_timeout "test" ∷ []) _ _
        (ground (arith, contains-remove_timer keys t t, eq_iff t t))

  -- The first failure of a test cancels its timers and starts a backoff.
  pub TimersFit-retry :
      (state : State) (attempts : Int64) (keys : List String) (reqs : List TimerRequest)
      → AreGood unit reqs
      → attempts ≢ 0
      → TimersFit unit state 0 keys
      → TimersFit unit retry_pending attempts (remove_timers (add_timers keys reqs) both)
  TimersFit-retry state attempts keys reqs good some_failed fit = record {
    distinct = Distinct-remove_timers both _ (Distinct-add_timers reqs keys fit.distinct);
    waiting = λ e station. elim (Bool-cases (str_eq station "test")) [
      | inl at ↦ rw ((eq_iff station "test").0 at) (test_cancelled _)
      | inr far ↦ contains-remove_timers-false both _ _ (
          contains-add_timers-false reqs keys _
            (NoneHas-AreGood unit station reqs good (ne_of_test station far))
            (fit.untried refl station (ne_of_test station far)))
    ];
    untried = λ z. absurd (some_failed z);
    retried = λ e. some_failed;
  }

  -- Any later failure, and a step that leaves a unit with a failed test waiting for no retry.
  pub TimersFit-failed :
      (state state' : State) (before attempts : Int64) (keys : List String)
      (reqs : List TimerRequest) (cancelled : List String)
      → state' ≢ retry_pending
      → attempts ≢ 0
      → TimersFit unit state before keys
      → TimersFit unit state' attempts (remove_timers (add_timers keys reqs) cancelled)
  TimersFit-failed state state' before attempts keys reqs cancelled ne some_failed fit = record {
    distinct = Distinct-remove_timers cancelled _ (Distinct-add_timers reqs keys fit.distinct);
    waiting = λ e. absurd (ne e);
    untried = λ z. absurd (some_failed z);
    retried = λ e. absurd (ne e);
  }

  -- The retry begins: the backoff is no longer active, and the test may time out.
  pub TimersFit-reopen :
      (state' : State) (attempts : Int64) (keys : List String) (key station : String)
      → state' ≢ retry_pending
      → TimersFit unit retry_pending attempts keys
      → TimersFit unit state' attempts
          (remove_timer keys key ++ (timer_key unit test_result_timeout station ∷ []))
  TimersFit-reopen state' attempts keys key station ne fit = record {
    distinct =
        Distinct-append _ _ (Distinct-remove_timer keys key fit.distinct)
          (contains-remove_timer-false keys key _ (fit.waiting refl station));
    waiting = λ e. absurd (ne e);
    untried = λ z. absurd (fit.retried refl z);
    retried = λ e. absurd (ne e);
  }

  -- A timer fired and the unit is held.
  pub TimersFit-timeout :
      (state state' : State) (attempts : Int64) (keys : List String) (key : String)
      → state' ≢ retry_pending
      → TimersFit unit state attempts keys
      → TimersFit unit state' attempts (remove_timer keys key)
  TimersFit-timeout state state' attempts keys key ne fit = record {
    distinct = Distinct-remove_timer keys key fit.distinct;
    waiting = λ e. absurd (ne e);
    untried = λ z station far. contains-remove_timer-false keys key _ (fit.untried z station far);
    retried = λ e. absurd (ne e);
  }

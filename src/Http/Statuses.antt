-- ===== src/Http/Statuses.antt =====
-- The statuses that internal/httpapi/server.go gives to signals and timers that are posted to a server
-- with the in-process runtime.
use forge_mini.Base.{ℕ, String, ◌≡◌, refl, ◌↔◌, inl, inr, false, ◌⊎◌}
use forge_mini.Base.Errors.{Error, not_found, Result, ok, err, Result-cases}
use forge_mini.Base.Machine.{Time}
use forge_mini.Signals.{OperationalSignal, Codec}
use forge_mini.Policy.{default_retry_policy}
use forge_mini.Workflow.Lifecycle.{Undecodable}
use forge_mini.Workflow.Decisions.{TimerPayload, HandleResult}
use forge_mini.Workflow.State.{UnitWorkflow}
use forge_mini.Store.Reads.{get_workflow-cases}
use forge_mini.Store.{signal_exists, get_workflow}
use forge_mini.App.Monad.{World}
use forge_mini.App.System.{System}
use forge_mini.App.Container.{service_runtime}
use forge_mini.App.Service
use forge_mini.App.Answers.{standing, handle_signal-err_iff, handle_timer-err_iff}
use forge_mini.Http.{Decoder, Request, Response, handled, internal, reply, write_json, failed}
use forge_mini.Http.Handlers.{handle_signal, handle_timer}
use forge_mini.Http.Routes.{serve, respond, handler, find, routes}

-- a POST of a body
abbrev pub posting : String → String → Request
posting path body = record { method = "POST"; path = path; query = λ name. ""; body = body }

module _ (json : Codec) where
  -- a signal that reaches the engine, and whose payload does not decode there
  abbrev pub Rejected : OperationalSignal → World → Type 0
  Rejected signal w =
      (signal_exists signal.id w.memory ≡ false)
      × ((e : Error) × Undecodable json signal (standing (get_workflow signal.unit_id w.memory)) e)

  -- the status for what the body of a signal decodes to
  abbrev pub SignalStatus : Result OperationalSignal → World → ℕ → Type 0
  SignalStatus (err e) w status = status ≡ 400
  SignalStatus (ok signal) w status =
      ((status ≡ 500) × Rejected signal w) ⊎ ((status ≡ 200) × ¬ Rejected signal w)

  reply_status :
      (signal : OperationalSignal) (w : World) (r : Result HandleResult)
      → ((e : Error)
          → (r ≡ err e) ↔ (
              (signal_exists signal.id w.memory ≡ false)
              × Undecodable json signal (standing (get_workflow signal.unit_id w.memory)) e))
      → SignalStatus (ok signal) w (reply internal handled r).status
  unfolding reply
  reply_status signal w (ok a) h =
      inr (refl, λ (unseen, (e, u)). let q : ok a ≡ err e = (h e).1 (unseen, u) in absurd (cc))
  reply_status signal w (err e) h = inl (refl, (((h e).0 refl).0, (e, ((h e).0 refl).1)))

-- the status for what the body of a timer decodes to
abbrev pub TimerStatus : Result TimerPayload → World → ℕ → Type 0
TimerStatus (err e) w status = status ≡ 400
TimerStatus (ok timer) w status =
    ((status ≡ 500) × (get_workflow timer.unit_id w.memory ≡ err not_found))
    ⊎ ((status ≡ 200) × ((wf : UnitWorkflow) × (get_workflow timer.unit_id w.memory ≡ ok wf)))

timer_reply_status :
    (timer : TimerPayload) (w : World) (r : Result HandleResult)
    → ((e : Error)
        → (r ≡ err e) ↔ ((get_workflow timer.unit_id w.memory ≡ err not_found) × (e ≡ not_found)))
    → TimerStatus (ok timer) w (reply internal handled r).status
unfolding reply
timer_reply_status timer w (ok a) h = elim (get_workflow-cases timer.unit_id w.memory) [
  | inl found ↦ inr (refl, found)
  | inr missing ↦ let q : ok a ≡ err not_found = (h not_found).1 (missing, refl) in absurd (cc)
]
timer_reply_status timer w (err e) h = inl (refl, ((h e).0 refl).0)

module _ {K : Type 0} (decoder : Decoder) (json : Codec) (clock : ℕ → Time) where
  abbrev pub posted : String → String → System K → Response
  posted path body s = (serve decoder clock (service_runtime json clock) (posting path body) s).0

  signal_response :
      (body : String) (s : System K) (r : Result OperationalSignal)
      → decoder.decode_signal body ≡ r
      → (handle_signal decoder clock (service_runtime json clock) (posting "/api/signals" body) s).0
        ≡ (elim r [
          | err e ↦ write_json 400 (failed e)
          | ok signal ↦
              reply internal handled
                (Service.handle_signal json default_retry_policy clock signal s.world).0
        ])
  unfolding handle_signal service_runtime
  signal_response body s (ok signal) e = rw (e, handle_signal) refl
  signal_response body s (err x) e = rw (e, handle_signal) refl

  posted_signal :
      (body : String) (s : System K) (r : Result OperationalSignal)
      → decoder.decode_signal body ≡ r
      → posted "/api/signals" body s ≡ (elim r [
        | err e ↦ write_json 400 (failed e)
        | ok signal ↦
            reply internal handled
              (Service.handle_signal json default_retry_policy clock signal s.world).0
      ])
  unfolding serve respond handler find routes
  posted_signal body s r e = signal_response body s r e

  -- For every store, a POST to /api/signals on a server with the in-process runtime has the status 400
  -- if the body does not decode; 500 if it decodes to a signal that was not seen before and whose
  -- payload the engine has to decode, in the state of the unit, and cannot; and else 200.
  pub signal_status :
      (body : String) (s : System K)
      → SignalStatus json (decoder.decode_signal body) s.world (posted "/api/signals" body s).status
  signal_status body s = elim (Result-cases (decoder.decode_signal body)) [
    | inl (signal, e) ↦
        rw (posted_signal body s (ok signal) e, e)
          (reply_status json signal s.world
            (Service.handle_signal json default_retry_policy clock signal s.world).0
            (handle_signal-err_iff json default_retry_policy clock signal s.world))
    | inr (x, e) ↦ rw (posted_signal body s (err x) e, e) refl
  ]

  timer_response :
      (body : String) (s : System K) (r : Result TimerPayload)
      → decoder.decode_timer body ≡ r
      → (handle_timer decoder clock (service_runtime json clock) (posting "/api/timers" body) s).0
        ≡ (elim r [
          | err e ↦ write_json 400 (failed e)
          | ok timer ↦
              reply internal handled
                (Service.handle_timer json default_retry_policy clock timer s.world).0
        ])
  unfolding handle_timer service_runtime
  timer_response body s (ok timer) e = rw (e, handle_timer) refl
  timer_response body s (err x) e = rw (e, handle_timer) refl

  posted_timer :
      (body : String) (s : System K) (r : Result TimerPayload)
      → decoder.decode_timer body ≡ r
      → posted "/api/timers" body s ≡ (elim r [
        | err e ↦ write_json 400 (failed e)
        | ok timer ↦
            reply internal handled
              (Service.handle_timer json default_retry_policy clock timer s.world).0
      ])
  unfolding serve respond handler find routes
  posted_timer body s r e = timer_response body s r e

  -- For every store, a POST to /api/timers on a server with the in-process runtime has the status 400
  -- if the body does not decode, 500 if it decodes to a timer whose unit is not stored, and else 200.
  pub timer_status :
      (body : String) (s : System K)
      → TimerStatus (decoder.decode_timer body) s.world (posted "/api/timers" body s).status
  timer_status body s = elim (Result-cases (decoder.decode_timer body)) [
    | inl (timer, e) ↦
        rw (posted_timer body s (ok timer) e, e)
          (timer_reply_status timer s.world
            (Service.handle_timer json default_retry_policy clock timer s.world).0
            (handle_timer-err_iff json default_retry_policy clock timer s.world))
    | inr (x, e) ↦ rw (posted_timer body s (err x) e, e) refl
  ]

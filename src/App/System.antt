-- ===== src/App/System.antt =====
-- The state of the whole server: the store and the clock of the process, and what the Temporal SDK
-- works on, the Temporal server and the worker of the process, as a parameter.
use forge_mini.Base.{ℕ}
use forge_mini.Base.Machine.{Time}
use forge_mini.Base.Action.{ActionOn}
use forge_mini.App.Monad.{World, Action, now}

pub record System (K : Type 0) : Type 0 where
  pub world : World
  pub sdk : K

module _ {ℓ} {K : Type 0} {A : Type ℓ} where
  -- a method of the in-process service
  abbrev pub on_world : Action A → ActionOn (System K) A
  on_world m s = let (r, w) = m s.world in (r, record s { world = w })

  -- a call of the SDK
  abbrev pub on_sdk : ActionOn K A → ActionOn (System K) A
  on_sdk m s = let (r, k) = m s.sdk in (r, record s { sdk = k })

-- `time.Now()`
abbrev pub time_now : {K : Type 0} → (ℕ → Time) → ActionOn (System K) Time
time_now clock = on_world (now clock)

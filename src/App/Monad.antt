-- ===== src/App/Monad.antt =====
-- The methods of the in-process service: what they work on is the store and the clock.
use forge_mini.Base.{ℕ, suc}
use forge_mini.Base.Errors.{Result, ok}
use forge_mini.Base.Machine.{Time}
use forge_mini.Base.Action.{ActionOn}
use forge_mini.Store.{Memory}
pub use forge_mini.Base.Action.{◌>>=◌, ◌>>◌, pure, lift}

-- `ticks` counts the calls of `s.now()` so far.
pub record World : Type 0 where
  pub memory : Memory
  pub ticks : ℕ

abbrev pub Action {ℓ} : Type ℓ → Type ℓ
Action A = ActionOn World A

module _ {ℓ} {A : Type ℓ} where
  abbrev pub gets : (Memory → A) → Action A
  gets f w = (ok (f w.memory), w)

  -- a method of the store that may return an error
  abbrev pub attempt : (Memory → Result A) → Action A
  attempt f w = (f w.memory, w)

abbrev pub modify : (Memory → Memory) → Action (Unit {0})
modify f w = (ok tt, record w { memory = f w.memory })

-- `s.now()`, where the clock gives a reading for each call
abbrev pub now : (ℕ → Time) → Action Time
now clock w = (ok (clock w.ticks), record w { ticks = suc w.ticks })

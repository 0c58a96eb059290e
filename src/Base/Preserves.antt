-- ===== src/Base/Preserves.antt =====
-- What every run of an action keeps of the state, whether it returns a value or an error.
use forge_mini.Base.Errors.{Result, ok, err}
use forge_mini.Base.Action.{ActionOn, ◌>>=◌}

module _ {ℓ} {S : Type 0} (P : S → Type 0) {A : Type ℓ} where
  abbrev pub Preserves : ActionOn S A → Type 0
  Preserves m = (s : S) → P s → P (m s).1

module _ {S : Type 0} (P : S → Type 0) where
  bind_after {ℓ κ} :
      {A : Type ℓ} {B : Type κ} (f : A → ActionOn S B) (r : Result A × S) (s : S)
      → ((a : A) → Preserves P (f a))
      → P r.1
      → P (((λ _. r) >>= f) s).1
  bind_after f (ok a, s') s k h = k a s' h
  bind_after f (err e, s') s k h = h

  pub bind-Preserves {ℓ κ} :
      {A : Type ℓ} {B : Type κ} (m : ActionOn S A) (f : A → ActionOn S B)
      → Preserves P m
      → ((a : A) → Preserves P (f a))
      → Preserves P (m >>= f)
  bind-Preserves m f h k s p = bind_after f (m s) s k (h s p)

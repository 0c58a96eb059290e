-- ===== src/Base/Action.antt =====
-- A method of the program: it works on a state, and it returns a value or an error; what it wrote
-- before an error stays written.
use forge_mini.Base.Errors.{Result, ok, err}

abbrev pub ActionOn {ℓ} : Type 0 → Type ℓ → Type ℓ
ActionOn S A = S → Result A × S

infixl 5 ◌>>=◌ ◌>>◌
abbrev pub ◌>>=◌ {ℓ κ} :
    {S : Type 0} {A : Type ℓ} {B : Type κ} → ActionOn S A → (A → ActionOn S B) → ActionOn S B
◌>>=◌ m f w = let (r, w') = m w in elim r [ ok a ↦ f a w' | err e ↦ (err e, w') ]

abbrev pub ◌>>◌ {κ} :
    {S : Type 0} {B : Type κ} → ActionOn S (Unit {0}) → ActionOn S B → ActionOn S B
m >> k = m >>= λ _. k

module _ {ℓ} {S : Type 0} {A : Type ℓ} where
  abbrev pub pure : A → ActionOn S A
  pure a w = (ok a, w)

  abbrev pub lift : Result A → ActionOn S A
  lift r w = (r, w)

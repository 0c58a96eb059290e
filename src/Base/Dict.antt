-- ===== src/Base/Dict.antt =====
-- A Go map with text keys, as an association list. `insert` writes a key in place, so a listing of
-- the values is in one of the orders in which Go may range over the map.
use Prim.Native.String.{String}
use mathlib.Core.Path.{◌≡◌, refl}
use mathlib.Core.Option.{Option, none, some}
use mathlib.Core.List.{List, [], ◌∷◌}
use native.Mathlib.Omega.{arith}
use text.Mathlib.Text.{◌==◌ as str_eq}
use text.Mathlib.TextEquality.{eq_iff}
use forge_mini.Base.Tests.{if◌then◌else◌}

abbrev pub Dict {ℓ} : Type ℓ → Type ℓ
Dict V = List (String × V)

module _ {ℓ} {V : Type ℓ} where
  -- `v, ok := m[k]`
  unfoldable pub lookup : String → Dict V → Option V
  lookup key [] = none
  lookup key ((first, value) ∷ rest) = if str_eq first key then some value else lookup key rest

  -- `m[k] = v`
  unfoldable pub insert : String → V → Dict V → Dict V
  insert key new [] = (key, new) ∷ []
  insert key new ((first, old) ∷ rest) =
      let behind = insert key new rest in
      if str_eq first key then (key, new) ∷ rest else (first, old) ∷ behind

  -- `delete(m, k)`: no entry of the key is left
  unfoldable pub erase : String → Dict V → Dict V
  erase key [] = []
  erase key ((first, value) ∷ rest) =
      let behind = erase key rest in if str_eq first key then behind else (first, value) ∷ behind

  -- the values, in the order of a range over the map
  unfoldable pub values : Dict V → List V
  values [] = []
  values ((key, value) ∷ rest) = value ∷ values rest

  -- A read at `other` sees what was written at `key` only if the two are the same text.
  pub lookup-insert :
      (key other : String) (new : V) (entries : Dict V)
      → lookup other (insert key new entries)
        ≡ (if str_eq key other then some new else lookup other entries)
  unfolding lookup insert
  lookup-insert key other new [] = refl
  lookup-insert key other new ((first, old) ∷ rest) = ground (
    arith,
    lookup-insert key other new rest,
    eq_iff first key,
    eq_iff first other,
    eq_iff key other,
  )

  -- The same of a delete.
  pub lookup-erase :
      (key other : String) (entries : Dict V)
      → lookup other (erase key entries) ≡ (if str_eq key other then none else lookup other entries)
  unfolding lookup erase
  lookup-erase key other [] = ground (arith, eq_iff key other)
  lookup-erase key other ((first, old) ∷ rest) =
      ground
        (arith, lookup-erase key other rest, eq_iff first key, eq_iff first other, eq_iff key other)

-- ===== src/Prelude/BoxMap.antt =====
-- A BoxMap keyed by uint64: an association list in which a write replaces the entry of its key.
use Prim.Native.Nat.{ℕ, ◌+◌}
use mathlib.Core.Path.{◌≡◌, refl}
use mathlib.Core.Bool.{Bool}
use mathlib.Core.Option.{Option, none, some}
use mathlib.Core.List.{List, [], ◌∷◌}
use native.Mathlib.Omega.{arith}
use trelyan_falcon_inscripti.Prelude.Lists.{length}
use trelyan_falcon_inscripti.Prelude.Tests.{◌==◌, if◌then◌else◌, is_some}

abbrev pub BoxMap {ℓ} : Type ℓ → Type ℓ
BoxMap V = List (ℕ × V)

module _ {ℓ} {V : Type ℓ} where
  -- `maybe`: the value of a box, or `none` if there is no such box
  unfoldable pub lookup : ℕ → BoxMap V → Option V
  lookup name [] = none
  lookup name ((other, v) ∷ boxes) = if other == name then some v else lookup name boxes

  -- `name in map`
  abbrev pub contains : ℕ → BoxMap V → Bool
  contains name boxes = is_some (lookup name boxes)

  -- `map[name] = v`
  unfoldable pub insert : ℕ → V → BoxMap V → BoxMap V
  insert name v [] = (name, v) ∷ []
  insert name v ((other, w) ∷ boxes) =
      if other == name then (name, v) ∷ boxes else (other, w) ∷ insert name v boxes

  pub lookup-insert :
      (name other : ℕ) (v : V) (boxes : BoxMap V)
      → lookup other (insert name v boxes) ≡ (if name == other then some v else lookup other boxes)
  unfolding lookup insert
  lookup-insert name other v [] = refl
  lookup-insert name other v ((first, w) ∷ boxes) = ground (arith, lookup-insert name other v boxes)

  -- A write to a new key adds one box; a write to an old key adds none.
  pub length-insert_new :
      (name : ℕ) (v : V) (boxes : BoxMap V)
      → lookup name boxes ≡ none
      → length (insert name v boxes) ≡ length boxes + 1
  unfolding lookup insert
  length-insert_new name v [] h = omega arith
  length-insert_new name v ((other, w) ∷ boxes) h = ground (arith, length-insert_new name v boxes)

pub lookup-empty {ℓ} : {V : Type ℓ} (name : ℕ) → lookup {V = V} name [] ≡ none
unfolding lookup
lookup-empty name = refl

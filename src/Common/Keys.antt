-- ===== src/Common/Keys.antt =====
-- Texts as lists of code points, Python's `in` on lists of texts, and dictionaries.
use Prim.Native.Nat.{ℕ}
use Prim.Native.Char.{code}
use Prim.Native.String.{String}
use mathlib.Core.Path.{◌≡◌, refl}
use mathlib.Core.Logic.{◌↔◌}
use mathlib.Core.Bool.{Bool, true, false, ◌&&◌, ◌||◌}
use mathlib.Core.List.{List, [], ◌∷◌}
use mathlib.Core.Option.{Option, none, some}
use native.Mathlib.Omega.{arith}
use ai_saga.Common.Tests.{eqb, if◌then◌else◌}

abbrev pub Text : Type 0
Text = List ℕ

-- The code points of a literal.
abbrev pub text : String → Text
text String.[] = []
text (String.◌∷◌ c s) = code c ∷ text s

abbrev pub text_eqb : Text → Text → Bool
text_eqb [] [] = true
text_eqb (x ∷ xs) (y ∷ ys) = eqb x y && text_eqb xs ys
text_eqb _ _ = false

pub text_eqb_iff : (a b : Text) → (text_eqb a b ≡ true) ↔ (a ≡ b)
text_eqb_iff [] [] = ((λ _. refl), (λ _. refl))
text_eqb_iff [] (y ∷ ys) = ground arith
text_eqb_iff (x ∷ xs) [] = ground arith
text_eqb_iff (x ∷ xs) (y ∷ ys) = ground (arith, text_eqb_iff xs ys)

-- `x in xs`
abbrev pub contains : Text → List Text → Bool
contains a [] = false
contains a (x ∷ xs) = text_eqb a x || contains a xs

-- A dictionary as an association list: `d.get(key)` and `d[key] = value`.
module _ {ℓ} {V : Type ℓ} where
  abbrev pub lookup : Text → List (Text × V) → Option V
  lookup k [] = none
  lookup k ((j, v) ∷ m) = if text_eqb j k then some v else lookup k m

  abbrev pub insert : Text → V → List (Text × V) → List (Text × V)
  insert k v [] = (k, v) ∷ []
  insert k v ((j, w) ∷ m) = if text_eqb j k then (j, v) ∷ m else (j, w) ∷ insert k v m

  pub lookup-insert_self :
      (k : Text) (v : V) (m : List (Text × V)) → lookup k (insert k v m) ≡ some v
  lookup-insert_self k v [] = ground (arith, text_eqb_iff k k)
  lookup-insert_self k v ((j, w) ∷ m) = ground (arith, text_eqb_iff j k, lookup-insert_self k v m)

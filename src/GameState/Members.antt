-- ===== src/GameState/Members.antt =====
-- Membership in the lists of a game state, and that no list repeats an entry.
use ai_saga.Common.{
  ◌≡◌, refl, false, not, ◌&&◌, ◌||◌, Option, none, some, List, [], ◌∷◌, ◌++◌, inl, inr, Text,
  text_eqb, text_eqb_iff, contains, Bool-cases, arith,
}
use ai_saga.GameState.{append_missing, remove_first, remove_present, visit}

abbrev pub Unique : List Text → Type 0
Unique [] = Unit
Unique (x ∷ xs) = (contains x xs ≡ false) × Unique xs

pub contains-append :
    (y : Text) (xs ys : List Text) → contains y (xs ++ ys) ≡ (contains y xs || contains y ys)
contains-append y [] ys = refl
contains-append y (x ∷ xs) ys = ground (arith, contains-append y xs ys)

Unique-snoc :
    (x : Text) (xs : List Text) → contains x xs ≡ false → Unique xs → Unique (xs ++ x ∷ [])
Unique-snoc x [] h u = (refl, tt)
Unique-snoc x (y ∷ xs) h u =
    ground
      (arith, contains-append y xs (x ∷ []), Unique-snoc x xs, text_eqb_iff x y, text_eqb_iff y x)

pub append_missing-Unique : (xs new : List Text) → Unique xs → Unique (append_missing xs new)
unfolding append_missing
append_missing-Unique xs [] u = u
append_missing-Unique xs (x ∷ new) u = elim (Bool-cases (contains x xs)) [
  | inl old ↦ rw old (append_missing-Unique xs new u)
  | inr fresh ↦ rw fresh (append_missing-Unique (xs ++ x ∷ []) new (Unique-snoc x xs fresh u))
]

pub contains-append_missing :
    (y : Text) (xs new : List Text)
    → contains y (append_missing xs new) ≡ (contains y xs || contains y new)
unfolding append_missing
contains-append_missing y xs [] = ground arith
contains-append_missing y xs (x ∷ new) = elim (Bool-cases (contains x xs)) [
  | inl old ↦ rw old (ground (arith, contains-append_missing y xs new, text_eqb_iff y x))
  | inr fresh ↦
      rw fresh (
        ground (arith, contains-append_missing y (xs ++ x ∷ []) new, contains-append y xs (x ∷ [])))
]

contains-remove_first :
    (y x : Text) (xs : List Text)
    → Unique xs
    → contains y (remove_first x xs) ≡ (contains y xs && not (text_eqb y x))
unfolding remove_first
contains-remove_first y x [] u = refl
contains-remove_first y x (z ∷ xs) u =
    ground
      (arith, contains-remove_first y x xs, text_eqb_iff x z, text_eqb_iff y z, text_eqb_iff y x)

pub remove_first-Unique : (x : Text) (xs : List Text) → Unique xs → Unique (remove_first x xs)
unfolding remove_first
remove_first-Unique x [] u = tt
remove_first-Unique x (y ∷ xs) u =
    ground (arith, remove_first-Unique x xs, contains-remove_first y x xs)

pub remove_present-Unique : (xs lost : List Text) → Unique xs → Unique (remove_present xs lost)
unfolding remove_present
remove_present-Unique xs [] u = u
remove_present-Unique xs (x ∷ lost) u = elim (Bool-cases (contains x xs)) [
  | inl there ↦
      rw there (remove_present-Unique (remove_first x xs) lost (remove_first-Unique x xs u))
  | inr gone ↦ rw gone (remove_present-Unique xs lost u)
]

pub contains-remove_present :
    (y : Text) (xs lost : List Text)
    → Unique xs
    → contains y (remove_present xs lost) ≡ (contains y xs && not (contains y lost))
unfolding remove_present
contains-remove_present y xs [] u = ground arith
contains-remove_present y xs (x ∷ lost) u = elim (Bool-cases (contains x xs)) [
  | inl there ↦ rw there (
      ground (
        arith,
        contains-remove_present y (remove_first x xs) lost (remove_first-Unique x xs u),
        contains-remove_first y x xs u,
      ))
  | inr gone ↦ rw gone (ground (arith, contains-remove_present y xs lost u, text_eqb_iff y x))
]

pub visit-Unique : (xs : List Text) (l : Option Text) → Unique xs → Unique (visit xs l)
unfolding visit
visit-Unique xs none u = u
visit-Unique xs (some []) u = u
visit-Unique xs (some (c ∷ cs)) u = elim (Bool-cases (contains (c ∷ cs) xs)) [
  | inl old ↦ rw old u
  | inr fresh ↦ rw fresh (Unique-snoc (c ∷ cs) xs fresh u)
]

-- The texts that a move names: none for no location or an empty one.
abbrev pub moved_to : Option Text → List Text
moved_to none = []
moved_to (some []) = []
moved_to (some (c ∷ cs)) = (c ∷ cs) ∷ []

pub contains-visit :
    (y : Text) (xs : List Text) (l : Option Text)
    → contains y (visit xs l) ≡ (contains y xs || contains y (moved_to l))
unfolding visit
contains-visit y xs none = ground arith
contains-visit y xs (some []) = ground arith
contains-visit y xs (some (c ∷ cs)) = elim (Bool-cases (contains (c ∷ cs) xs)) [
  | inl old ↦ rw old (ground (arith, text_eqb_iff y (c ∷ cs)))
  | inr fresh ↦ rw fresh (contains-append y xs ((c ∷ cs) ∷ []))
]

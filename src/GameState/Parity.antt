-- ===== src/GameState/Parity.antt =====
-- The world's item list and the character's inventory are edited by different code: the first by
-- `list.append` and `list.remove`, the second by copies and a filtering comprehension.
use ai_saga.Common.{◌≡◌, refl, false, List, [], ◌∷◌, Text, text_eqb_iff, contains, arith}
use ai_saga.Character.{without}
use ai_saga.GameState.{remove_first}
use ai_saga.GameState.Members.{Unique}

without_absent : (x : Text) (xs : List Text) → contains x xs ≡ false → without x xs ≡ xs
unfolding without
without_absent x [] h = refl
without_absent x (y ∷ xs) h =
    ground (arith, without_absent x xs, text_eqb_iff x y, text_eqb_iff y x)

-- Where no entry repeats, removing the first occurrence is removing every occurrence.
pub remove_first-eq-without :
    (x : Text) (xs : List Text) → Unique xs → remove_first x xs ≡ without x xs
unfolding remove_first without
remove_first-eq-without x [] u = refl
remove_first-eq-without x (y ∷ xs) u =
    ground
      (arith, remove_first-eq-without x xs, without_absent x xs, text_eqb_iff x y, text_eqb_iff y x)

-- ===== src/GameState.antt =====
-- The state of the game world and its changes: app/game/domain/value_objects/game_state.py and
-- app/game/domain/services/game_state_service.py. A state dictionary is an association list from
-- keys to lists of texts, which is what the session's `game_state` column holds.
pub mod Lookup
pub mod Members
pub mod Parity
pub mod Changes
use ai_saga.Common.{
  Bool, true, false, not, ◌&&◌, Option, none, some, List, [], ◌∷◌, ◌++◌, if◌then◌else◌, Text, text,
  text_eqb, contains, lookup,
}
use ai_saga.Common.Int.{ℤ}

pub record GameState : Type 0 where
  pub items : List Text
  pub visited_locations : List Text
  pub met_npcs : List Text
  pub discoveries : List Text

abbrev pub StateDict : Type 0
StateDict = List (Text × List Text)

-- `data.get(key, [])`
unfoldable pub get_list : Text → StateDict → List Text
get_list key d = elim (lookup key d) [ none ↦ [] | some xs ↦ xs ]

unfoldable pub from_dict : StateDict → GameState
unfolding get_list
from_dict d = record {
  items = get_list (text "items") d;
  visited_locations = get_list (text "visited_locations") d;
  met_npcs = get_list (text "met_npcs") d;
  discoveries = get_list (text "discoveries") d;
}

unfoldable pub to_dict : GameState → StateDict
to_dict s =
    (text "items", s.items)
    ∷ (text "visited_locations", s.visited_locations)
    ∷ (text "met_npcs", s.met_npcs)
    ∷ (text "discoveries", s.discoveries)
    ∷ []

pub record StateChanges : Type 0 where
  pub hp_change : ℤ
  pub experience_gained : ℤ
  pub items_gained : List Text
  pub items_lost : List Text
  pub location : Option Text
  pub npcs_met : List Text
  pub discoveries : List Text

-- `for x in new: if x not in xs: xs.append(x)`
unfoldable pub append_missing : List Text → List Text → List Text
append_missing xs [] = xs
append_missing xs (x ∷ new) = append_missing (if contains x xs then xs else xs ++ x ∷ []) new

-- `xs.remove(x)`: the first occurrence goes.
unfoldable pub remove_first : Text → List Text → List Text
remove_first x [] = []
remove_first x (y ∷ ys) = let rest = remove_first x ys in if text_eqb x y then ys else y ∷ rest

-- `for x in lost: if x in xs: xs.remove(x)`
unfoldable pub remove_present : List Text → List Text → List Text
remove_present xs [] = xs
remove_present xs (x ∷ lost) = remove_present (if contains x xs then remove_first x xs else xs) lost

-- `if location and location not in visited: visited.append(location)`; an empty text is falsy.
unfoldable pub visit : List Text → Option Text → List Text
visit visited none = visited
visit visited (some []) = visited
visit visited (some (c ∷ cs)) =
    if contains (c ∷ cs) visited then visited else visited ++ (c ∷ cs) ∷ []

unfoldable pub apply_state_changes : StateDict → StateChanges → StateDict
apply_state_changes d changes =
    let current = from_dict d in
    to_dict (record {
      items = remove_present (append_missing current.items changes.items_gained) changes.items_lost;
      visited_locations = visit current.visited_locations changes.location;
      met_npcs = append_missing current.met_npcs changes.npcs_met;
      discoveries = append_missing current.discoveries changes.discoveries;
    })

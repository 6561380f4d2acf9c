-- ===== src/GameState/Changes.antt =====
-- What applying state changes does to each list of the world.
use ai_saga.Common.{◌≡◌, ap, ◌∙◌, not, ◌&&◌, ◌||◌, Text, contains}
use ai_saga.GameState.{GameState, StateDict, StateChanges, from_dict, apply_state_changes}
use ai_saga.GameState.Lookup.{from_dict-to_dict}
use ai_saga.GameState.Members.{
  Unique, moved_to, append_missing-Unique, remove_present-Unique, visit-Unique,
  contains-append_missing, contains-remove_present, contains-visit,
}

-- No list of the state repeats an entry.
pub record IsUnique (s : GameState) : Type 0 where
  pub items : Unique s.items
  pub locations : Unique s.visited_locations
  pub npcs : Unique s.met_npcs
  pub discoveries : Unique s.discoveries

-- A state without repetitions stays without repetitions.
pub apply_state_changes-IsUnique :
    (d : StateDict) (changes : StateChanges)
    → IsUnique (from_dict d)
    → IsUnique (from_dict (apply_state_changes d changes))
unfolding apply_state_changes
apply_state_changes-IsUnique d changes u = rw from_dict-to_dict (record {
  items =
      remove_present-Unique _ changes.items_lost
        (append_missing-Unique _ changes.items_gained u.items);
  locations = visit-Unique _ changes.location u.locations;
  npcs = append_missing-Unique _ changes.npcs_met u.npcs;
  discoveries = append_missing-Unique _ changes.discoveries u.discoveries;
})

-- What a state holds after changes, entry by entry.
pub record Holds (s t : GameState) (changes : StateChanges) (y : Text) : Type 0 where
  pub items : contains y t.items ≡ (
      (contains y s.items || contains y changes.items_gained)
      && not (contains y changes.items_lost))
  pub locations :
      contains y t.visited_locations
      ≡ (contains y s.visited_locations || contains y (moved_to changes.location))
  pub npcs : contains y t.met_npcs ≡ (contains y s.met_npcs || contains y changes.npcs_met)
  pub discoveries :
      contains y t.discoveries ≡ (contains y s.discoveries || contains y changes.discoveries)

-- After changes to a state without repetitions, an item is held exactly if it was held or gained
-- and is not lost (a loss beats a gain of the same change); a place, person or discovery is known
-- exactly if it was known or the change names it, so none of these is ever forgotten.
pub apply_state_changes-Holds :
    (d : StateDict) (changes : StateChanges) (y : Text)
    → IsUnique (from_dict d)
    → Holds (from_dict d) (from_dict (apply_state_changes d changes)) changes y
unfolding apply_state_changes
apply_state_changes-Holds d changes y u = rw from_dict-to_dict (record {
  items =
      contains-remove_present y _ changes.items_lost
        (append_missing-Unique _ changes.items_gained u.items)
      ∙ ap (λ b. b && not (contains y changes.items_lost))
          (contains-append_missing y (from_dict d).items changes.items_gained);
  locations = contains-visit y _ changes.location;
  npcs = contains-append_missing y _ changes.npcs_met;
  discoveries = contains-append_missing y _ changes.discoveries;
})

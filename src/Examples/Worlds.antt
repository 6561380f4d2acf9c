-- ===== src/Examples/Worlds.antt =====
-- Sessions, states of the world and settled changes at concrete values.
use ai_saga.Common.{ℕ, ◌≤◌, ◌≡◌, ◌⊎◌, refl, true, false, none, some, [], text, ok, arith}
use ai_saga.Common.Int.{pos, negsuc}
use ai_saga.Values.{EndingType}
use ai_saga.Json.{Json, str, bool, obj, null}
use ai_saga.GameState.{StateChanges, from_dict, apply_state_changes}
use ai_saga.GameState.Changes
use ai_saga.Session.{GameSession, advance_turn, complete}
use ai_saga.Session.Lifecycle
use ai_saga.Character.{CharacterEntity}
use ai_saga.Narrator.{extract_state_changes, extract_narrative_from_parsed, extract_dice_applied}
use ai_saga.Turn.Changes.{settle_changes, update_character}
use ai_saga.Turn.Normal.{build_persisted_parsed_response}
use ai_saga.Turn.Settle
use ai_saga.Turn.Inventory
use ai_saga.Turn.Persisted
use ai_saga.Examples.Setup.{
  python, answer_fields, stats, character, state, session, changes, fumble,
}

state-IsUnique : Changes.IsUnique (from_dict state)
unfolding from_dict
state-IsUnique = record { items = (refl, tt); locations = tt; npcs = tt; discoveries = tt }

apply_state_changes-Holds_example :
    Changes.Holds
      (from_dict state)
      (from_dict (apply_state_changes state changes))
      changes
      (text "rope")
apply_state_changes-Holds_example =
    Changes.apply_state_changes-Holds state changes (text "rope") state-IsUnique

session-IsSound : Lifecycle.IsSound session
session-IsSound = record { typed = ground arith; timed = ground arith; used = ground arith }

-- The session a turn later.
abbrev later : GameSession
later = record session { turn_count = 2; last_activity_at = 9 }

later_lem : advance_turn 9 session ≡ ok later
unfolding advance_turn
later_lem = refl

Reach-IsSound_example :
    Lifecycle.IsSound (complete 10 EndingType.victory later)
    × Lifecycle.Keeps session (complete 10 EndingType.victory later)
Reach-IsSound_example =
    Lifecycle.Reach-IsSound session (complete 10 EndingType.victory later) session-IsSound (
      Lifecycle.next (Lifecycle.next Lifecycle.here (Lifecycle.advance 9 later_lem))
        (Lifecycle.finish 10 EndingType.victory refl))

-- The changes after the fumble.
abbrev settled : StateChanges
settled = settle_changes true (some fumble) true changes

settle_changes-Rest_example :
    Settle.Rest changes settled
    × (true ≡ true
        → Settle.Failed (some fumble)
        → (settled.location ≡ none) × (settled.items_gained ≡ []))
    × ((Settle.Failed (some fumble) → true ≡ false)
        → (settled.location ≡ changes.location) × (settled.items_gained ≡ changes.items_gained))
settle_changes-Rest_example = Settle.settle_changes-Rest true (some fumble) true changes

settle_changes-hp_example :
    ((n : ℕ) → Settle.Fumbles (some fumble) n → settled.hp_change ≡ negsuc n)
    × (((n : ℕ) → Settle.Fumbles (some fumble) n → ⊥)
        → (true ≡ true → true ≡ false → settled.hp_change ≡ pos 0)
          × ((true ≡ false) ⊎ (true ≡ true) → settled.hp_change ≡ changes.hp_change))
settle_changes-hp_example = Settle.settle_changes-hp true (some fumble) true changes

same_items : character.inventory ≡ (from_dict state).items
unfolding from_dict
same_items = refl

inventory-eq-items_example :
    (c' : CharacterEntity) × (update_character changes character ≡ ok c')
    × (c'.inventory ≡ (from_dict (apply_state_changes state changes)).items)
inventory-eq-items_example =
    Inventory.inventory-eq-items changes character state (refl, tt) same_items

changed_stats-IsHealthy_example :
    Inventory.IsHealthy (Inventory.changed_stats changes stats)
    × (stats.level ≤ (Inventory.changed_stats changes stats).level)
    × (stats.max_hp ≤ (Inventory.changed_stats changes stats).max_hp)
changed_stats-IsHealthy_example =
    Inventory.changed_stats-IsHealthy changes stats
      (record { within = omega arith; leveled = omega arith })

build_persisted-extract_example :
    (kept : Json) × (build_persisted_parsed_response
        (obj answer_fields)
        (str (text "Told."))
        changes
        (bool true)
        null
      ≡ ok kept)
    × (extract_state_changes python kept ≡ ok changes)
    × (extract_narrative_from_parsed kept (text "-") ≡ ok (str (text "Told.")))
    × (extract_dice_applied kept ≡ ok (bool true))
build_persisted-extract_example =
    Persisted.build_persisted-extract python answer_fields (str (text "Told.")) changes (bool true)
      null (text "-")

-- ===== src/Turn/Changes.antt =====
-- What a turn does with the changes that the language model asks for: lines 389 to 413 of
-- `_handle_normal_turn`, which settle them by the dice, and lines 435 to 491, which carry them over
-- to the character.
use ai_saga.Common.{
  ℕ, zero, suc, Bool, true, false, not, ◌&&◌, ◌||◌, Option, none, some, List, [], ◌∷◌,
  if◌then◌else◌, Text, contains, Result, ok, ◌>>=◌,
}
use ai_saga.Common.Int.{ℤ, pos, neg, pos_part, neg_part, is_positive, is_nonzero}
use ai_saga.Dice.{DiceResult, is_success, is_fumble}
use ai_saga.GameState.{StateChanges}
use ai_saga.Narrator.{filter_state_changes_on_dice_failure}
use ai_saga.Character.{
  CharacterEntity, CharacterStats, heal, take_damage, gain_experience, update_stats,
  add_to_inventory, remove_from_inventory,
}

-- `dice_result is not None and not dice_result.is_success`
unfoldable pub has_failed : Option DiceResult → Bool
has_failed none = false
has_failed (some d) = not (is_success d)

-- The damage of a fumble, where the dice show one and it is not 0.
unfoldable pub fumble_damage : Option DiceResult → Option ℕ
fumble_damage none = none
fumble_damage (some d) =
    if is_fumble d
    then elim d.damage [ none ↦ none | some n ↦ elim n [ zero ↦ none | suc m ↦ some (suc m) ] ]
    else none

unfoldable pub resolve_hp_change : Bool → Option DiceResult → Bool → ℤ → ℤ
unfolding fumble_damage
resolve_hp_change should_apply dice applied hp = elim (fumble_damage dice) [
  | some n ↦ neg n
  | none ↦ if should_apply && not applied then pos 0 else hp
]

unfoldable pub settle_changes : Bool → Option DiceResult → Bool → StateChanges → StateChanges
unfolding has_failed resolve_hp_change filter_state_changes_on_dice_failure
settle_changes should_apply dice applied changes =
    let kept =
      if applied && has_failed dice
      then filter_state_changes_on_dice_failure changes
      else changes in
    record kept { hp_change = resolve_hp_change should_apply dice applied kept.hp_change }

-- Whether the character row is read and written at all.
unfoldable pub touches_character : StateChanges → Bool
touches_character changes =
    is_nonzero changes.hp_change
    || is_nonzero changes.experience_gained
    || (elim changes.items_gained [ [] ↦ false | _ ↦ true ])
    || (elim changes.items_lost [ [] ↦ false | _ ↦ true ])

unfoldable pub change_hp : ℤ → CharacterStats → CharacterStats
change_hp hp s =
    if is_nonzero hp
    then (if is_positive hp then heal s (pos_part hp) else take_damage s (neg_part hp))
    else s

unfoldable pub change_experience : ℤ → CharacterStats → CharacterStats
change_experience xp s = if is_positive xp then gain_experience s (pos_part xp) else s

unfoldable pub gain_items : List Text → CharacterEntity → CharacterEntity
gain_items [] c = c
gain_items (item ∷ items) c =
    gain_items items (if contains item c.inventory then c else add_to_inventory c item)

unfoldable pub lose_items : List Text → CharacterEntity → Result CharacterEntity
lose_items [] c = ok c
lose_items (item ∷ items) c = do
  d ← if contains item c.inventory then remove_from_inventory c item else ok c
  lose_items items d

unfoldable pub update_character : StateChanges → CharacterEntity → Result CharacterEntity
unfolding change_hp change_experience gain_items lose_items
update_character changes c =
    let healed = update_stats c (change_hp changes.hp_change c.stats) in
    let risen = update_stats healed (change_experience changes.experience_gained healed.stats) in
    lose_items changes.items_lost (gain_items changes.items_gained risen)

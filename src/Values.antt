-- ===== src/Values.antt =====
-- The enumerations of app/game/domain/value_objects, with the methods they carry.
use ai_saga.Common.{ℕ, Bool, true, false, Text, text}

pub data ActionType : Type 0 where
  combat social skill movement observation rest exploration : ActionType

-- `ActionType.requires_dice`
unfoldable pub requires_dice : ActionType → Bool
requires_dice ActionType.combat = true
requires_dice ActionType.social = true
requires_dice ActionType.skill = true
requires_dice ActionType.exploration = true
requires_dice ActionType.movement = false
requires_dice ActionType.observation = false
requires_dice ActionType.rest = false

pub data DiceCheckType : Type 0 where
  combat skill social exploration : DiceCheckType

pub data ScenarioDifficulty : Type 0 where
  easy normal hard nightmare : ScenarioDifficulty

pub data ScenarioGenre : Type 0 where
  fantasy sci_fi cyberpunk horror survival mystery historical post_apocalyptic : ScenarioGenre

abbrev pub genre_value : ScenarioGenre → Text
genre_value ScenarioGenre.fantasy = text "fantasy"
genre_value ScenarioGenre.sci_fi = text "sci_fi"
genre_value ScenarioGenre.cyberpunk = text "cyberpunk"
genre_value ScenarioGenre.horror = text "horror"
genre_value ScenarioGenre.survival = text "survival"
genre_value ScenarioGenre.mystery = text "mystery"
genre_value ScenarioGenre.historical = text "historical"
genre_value ScenarioGenre.post_apocalyptic = text "post_apocalyptic"

-- `ScenarioDifficulty.dc`
unfoldable pub dc : ScenarioDifficulty → ℕ
dc ScenarioDifficulty.easy = 10
dc ScenarioDifficulty.normal = 13
dc ScenarioDifficulty.hard = 16
dc ScenarioDifficulty.nightmare = 19

pub data EndingType : Type 0 where
  victory defeat neutral : EndingType

-- The string value of an `EndingType`.
unfoldable pub ending_value : EndingType → Text
ending_value EndingType.victory = text "victory"
ending_value EndingType.defeat = text "defeat"
ending_value EndingType.neutral = text "neutral"

pub data MessageRole : Type 0 where
  user assistant system : MessageRole

pub data SessionStatus : Type 0 where
  active paused completed ended : SessionStatus

-- `SessionStatus.is_playable`
unfoldable pub is_playable_status : SessionStatus → Bool
is_playable_status SessionStatus.active = true
is_playable_status SessionStatus.paused = false
is_playable_status SessionStatus.completed = false
is_playable_status SessionStatus.ended = false

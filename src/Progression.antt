-- ===== src/Progression.antt =====
-- The player's own progress across games: app/game/domain/services/user_progression_service.py,
-- the game part of app/auth/domain/entities/user.py, and
-- app/auth/infrastructure/repositories/user_progression_repository.py.
pub mod Awards
pub mod Rewards
use ai_saga.Common.{
  ℕ, zero, suc, ◌+◌, ◌-◌, ◌*◌, ◌/◌, Bool, true, false, Option, none, some, List, [], ◌∷◌, ltb, leb,
  eqb, if◌then◌else◌, Result, ok, raise, not_found,
}
use ai_saga.Values.{EndingType, ScenarioDifficulty}

unfoldable pub base_xp : EndingType → ℕ
base_xp EndingType.victory = 200
base_xp EndingType.defeat = 50
base_xp EndingType.neutral = 100

unfoldable pub per_turn_xp : EndingType → ℕ
per_turn_xp EndingType.victory = 10
per_turn_xp EndingType.defeat = 5
per_turn_xp EndingType.neutral = 7

-- `difficulty in (HARD, NIGHTMARE)`
unfoldable pub is_hard : ScenarioDifficulty → Bool
is_hard ScenarioDifficulty.easy = false
is_hard ScenarioDifficulty.normal = false
is_hard ScenarioDifficulty.hard = true
is_hard ScenarioDifficulty.nightmare = true

-- `int(xp * 1.5)` is `3 * xp / 2`: a float holds `xp * 1.5` exactly at these sizes.
unfoldable pub calculate_game_xp : EndingType → ℕ → ScenarioDifficulty → ℕ
unfolding base_xp per_turn_xp is_hard
calculate_game_xp ending turn_count difficulty =
    let xp = base_xp ending + turn_count * per_turn_xp ending in
    if is_hard difficulty then (3 * xp) / 2 else xp

-- The level of a user starts at 1.
unfoldable pub calculate_starting_hp : ℕ → ℕ
calculate_starting_hp level = 100 + (level - 1) * 10

-- The columns of a user row that games read and write.
pub record User : Type 0 where
  pub id : ℕ
  pub game_level : ℕ
  pub game_experience : ℕ
  pub game_current_experience : ℕ

unfoldable pub game_experience_for_next_level : User → ℕ
game_experience_for_next_level u = u.game_level * 300

unfoldable pub game_level_up_once : User → User
unfolding game_experience_for_next_level
game_level_up_once u = record u {
  game_level = u.game_level + 1;
  game_current_experience = u.game_current_experience - game_experience_for_next_level u;
}

-- The `while` loop of `gain_game_experience`, on fuel.
unfoldable pub game_level_loop : ℕ → User → User
unfolding game_level_up_once
game_level_loop zero u = u
game_level_loop (suc f) u =
    let rest = game_level_loop f (game_level_up_once u) in
    if leb (game_experience_for_next_level u) u.game_current_experience then rest else u

unfoldable pub gain_game_experience : User → ℕ → User
gain_game_experience u amount =
    game_level_loop (suc (u.game_current_experience + amount)) (record u {
      game_experience = u.game_experience + amount;
      game_current_experience = u.game_current_experience + amount;
    })

pub record UserProgressionResult : Type 0 where
  pub game_level : ℕ
  pub game_experience : ℕ
  pub game_current_experience : ℕ
  pub leveled_up : Bool
  pub levels_gained : ℕ

-- The users table, and its row for an id.
unfoldable pub find_user : ℕ → List User → Option User
find_user i [] = none
find_user i (u ∷ us) = if eqb u.id i then some u else find_user i us

unfoldable pub put_user : User → List User → List User
put_user v [] = []
put_user v (u ∷ us) = if eqb u.id v.id then v ∷ us else u ∷ put_user v us

unfoldable pub get_user_game_level : ℕ → List User → Result ℕ
get_user_game_level user_id users = elim (find_user user_id users) [
  | none ↦ raise not_found
  | some u ↦ ok u.game_level
]

-- The row with the new values, and what the caller is told. The row is locked by the query, so no
-- other award comes between the read and the write.
unfoldable pub award : User → ℕ → User × UserProgressionResult
award u xp =
    let v = gain_game_experience u xp in
    (
      v,
      record {
        game_level = v.game_level;
        game_experience = v.game_experience;
        game_current_experience = v.game_current_experience;
        leveled_up = ltb 0 (v.game_level - u.game_level);
        levels_gained = v.game_level - u.game_level;
      },
    )

unfoldable pub award_game_experience :
    ℕ → ℕ → List User → Result (List User × UserProgressionResult)
award_game_experience user_id xp users = elim (find_user user_id users) [
  | none ↦ raise not_found
  | some u ↦ let (v, told) = award u xp in ok (put_user v users, told)
]

-- ===== src/Progression/Rewards.antt =====
-- How the reward of a game depends on its ending, length and difficulty.
use ai_saga.Common.{ℕ, ◌+◌, ◌≤◌, ◌<◌, arith}
use ai_saga.Values.{EndingType, ScenarioDifficulty}
use ai_saga.Progression.{calculate_game_xp}

-- At every length and difficulty a victory earns more than a neutral ending, and that more than a
-- defeat; each further turn earns more; and a harder scenario never earns less than an easier one.
pub calculate_game_xp_order :
    (turns : ℕ) (d : ScenarioDifficulty) (e : EndingType)
    → (calculate_game_xp EndingType.defeat turns d < calculate_game_xp EndingType.neutral turns d)
      × (calculate_game_xp EndingType.neutral turns d
          < calculate_game_xp EndingType.victory turns d)
      × (calculate_game_xp e turns d < calculate_game_xp e (turns + 1) d)
      × (calculate_game_xp e turns ScenarioDifficulty.easy ≤ calculate_game_xp e turns d)
      × (calculate_game_xp e turns d ≤ calculate_game_xp e turns ScenarioDifficulty.nightmare)
unfolding calculate_game_xp
calculate_game_xp_order turns d e = ground arith

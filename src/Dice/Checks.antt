-- ===== src/Dice/Checks.antt =====
-- When a check succeeds, and how often.
use ai_saga.Common.{
  ℕ, zero, suc, ◌+◌, ◌-◌, ◌/◌, ◌≤◌, min, ◌≡◌, ◌∙◌, ◌≢◌, ◌↔◌, true, none, arith, if◌then◌else◌,
}
use ai_saga.Values.{DiceCheckType, ScenarioDifficulty, dc}
use ai_saga.Dice.{Random, DiceResult, is_critical, is_success, calculate_modifier, perform_check}

dc-le : (difficulty : ScenarioDifficulty) → dc difficulty ≤ 19
unfolding dc
dc-le ScenarioDifficulty.easy = omega arith
dc-le _ = omega arith

module _ (r : Random) (difficulty : ScenarioDifficulty) (c : DiceCheckType) (g : r.Gen) where
  abbrev pub checked : ℕ → DiceResult
  checked level = (perform_check r level difficulty c g).0

  -- A check succeeds exactly when the die does not show 1 and the roll with the modifier of the
  -- level reaches the difficulty class; a natural 20 succeeds at every level and difficulty.
  pub perform_check_success :
      (level : ℕ)
      → ((is_success (checked level) ≡ true) ↔ (
          ((checked level).roll ≢ 1)
          × (dc difficulty ≤ (checked level).roll + ((level - 1) / 4 + 2))))
        × (is_critical (checked level) ≡ true → is_success (checked level) ≡ true)
  unfolding perform_check is_success is_critical calculate_modifier
  perform_check_success level = ground (arith, dc-le difficulty)

  -- With the same state of the generator, a higher level keeps every success.
  pub perform_check_mono :
      (low high : ℕ)
      → low ≤ high
      → is_success (checked low) ≡ true
      → is_success (checked high) ≡ true
  unfolding perform_check is_success calculate_modifier
  perform_check_mono low high h s = ground arith

-- The result of a check whose die shows `face`.
abbrev pub shown : ℕ → ScenarioDifficulty → ℕ → DiceResult
shown level difficulty face = record {
  roll = face;
  modifier = calculate_modifier level;
  dc = dc difficulty;
  check_type = DiceCheckType.skill;
  damage = none;
}

-- How many of the faces from 1 to `n` succeed.
abbrev pub winning_faces : ℕ → ScenarioDifficulty → ℕ → ℕ
winning_faces level difficulty zero = 0
winning_faces level difficulty (suc n) =
    (if is_success (shown level difficulty (suc n)) then 1 else 0)
    + winning_faces level difficulty n

winning_faces_below :
    (level : ℕ) (difficulty : ScenarioDifficulty) (n : ℕ)
    → winning_faces level difficulty n
      ≡ min (n - 1) (n + calculate_modifier level + 1 - dc difficulty)
unfolding is_success
winning_faces_below level difficulty zero = omega arith
winning_faces_below level difficulty (suc n) =
    ground (arith, winning_faces_below level difficulty n)

-- Of the twenty faces, all but the 1 and those that fall short of the difficulty class with the
-- modifier succeed: `min 19 (21 + modifier - dc)` of them.
pub winning_faces_count :
    (level : ℕ) (difficulty : ScenarioDifficulty)
    → winning_faces level difficulty 20 ≡ min 19 (21 + calculate_modifier level - dc difficulty)
winning_faces_count level difficulty = winning_faces_below level difficulty 20 ∙ omega arith

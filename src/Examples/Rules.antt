-- ===== src/Examples/Rules.antt =====
-- The rules of dice, experience, classification and texts at concrete values.
use ai_saga.Common.{◌≡◌, refl, true, arith}
use ai_saga.Values.{ScenarioDifficulty, DiceCheckType, dc}
use ai_saga.Dice.{roll_d20, is_success, perform_check, calculate_modifier}
use ai_saga.Dice.Bounds
use ai_saga.Dice.Checks
use ai_saga.Character.{gain_experience}
use ai_saga.Character.Leveling
use ai_saga.Examples.Setup.{least, greatest, stats}

perform_check-DamageFits_example :
    Bounds.DamageFits least (perform_check least 5 ScenarioDifficulty.easy DiceCheckType.skill 0).0
perform_check-DamageFits_example =
    Bounds.perform_check-DamageFits least 5 ScenarioDifficulty.easy DiceCheckType.skill 0

gain_experience-Gains_example : Leveling.Gains 250 stats (gain_experience stats 250)
gain_experience-Gains_example = Leveling.gain_experience-Gains stats 250 (omega arith)

low_succeeds :
    is_success (Checks.checked greatest ScenarioDifficulty.hard DiceCheckType.combat 0 1) ≡ true
unfolding perform_check is_success roll_d20 dc calculate_modifier
low_succeeds = refl

-- ===== src/Dice.antt =====
-- Dice checks: app/game/domain/services/dice_service.py and app/game/domain/value_objects/dice.py.
-- `random.randint` is a parameter that draws from an explicit generator state; all it is assumed to
-- do is to keep to its bounds. Levels start at 1, so `level - 1` does not go below 0 there.
pub mod Bounds
pub mod Checks
use ai_saga.Common.{
  ℕ, zero, suc, ◌+◌, ◌-◌, ◌*◌, ◌/◌, ◌≤◌, Bool, true, false, Option, none, some, eqb, leb,
  if◌then◌else◌,
}
use ai_saga.Values.{DiceCheckType, ScenarioDifficulty, dc}

-- `random.randint a b` over the state of the generator.
pub record Random : Type 1 where
  pub Gen : Type 0
  pub randint : ℕ → ℕ → Gen → ℕ × Gen
  pub randint_bounds :
      (a b : ℕ) (g : Gen) → a ≤ b → (a ≤ (randint a b g).0) × ((randint a b g).0 ≤ b)

pub record DiceResult : Type 0 where
  pub roll : ℕ
  pub modifier : ℕ
  pub dc : ℕ
  pub check_type : DiceCheckType
  pub damage : Option ℕ

unfoldable pub total : DiceResult → ℕ
total r = r.roll + r.modifier

unfoldable pub is_critical : DiceResult → Bool
is_critical r = eqb r.roll 20

unfoldable pub is_fumble : DiceResult → Bool
is_fumble r = eqb r.roll 1

unfoldable pub is_success : DiceResult → Bool
unfolding is_fumble total
is_success r = if is_fumble r then false else leb r.dc (total r)

unfoldable pub calculate_modifier : ℕ → ℕ
calculate_modifier level = (level - 1) / 4 + 2

-- The number of dice and their sides.
unfoldable pub get_damage_dice : ℕ → ℕ × ℕ
get_damage_dice level =
    if leb level 2
    then (1, 4)
    else if leb level 4
    then (1, 6)
    else if leb level 6
    then (1, 8)
    else if leb level 8
    then (1, 10)
    else (1, 12)

module _ (r : Random) where
  open r use {Gen, randint}

  unfoldable pub roll_d20 : Gen → ℕ × Gen
  roll_d20 g = randint 1 20 g

  -- `sum(random.randint(1, sides) for _ in range(count))`
  unfoldable pub sum_rolls : ℕ → ℕ → Gen → ℕ × Gen
  sum_rolls zero sides g = (0, g)
  sum_rolls (suc count) sides g =
      let (x, g1) = randint 1 sides g in let (rest, g2) = sum_rolls count sides g1 in (x + rest, g2)

  unfoldable pub roll_damage : ℕ → Bool → Gen → ℕ × Gen
  roll_damage level critical g =
      let (count, sides) = get_damage_dice level in
      sum_rolls (if critical then count * 2 else count) sides g

  unfoldable pub roll_fumble_damage : Gen → ℕ × Gen
  roll_fumble_damage g = randint 1 4 g

  -- The damage that a roll of the d20 brings with it.
  unfoldable pub check_damage : ℕ → ℕ → Gen → Option ℕ × Gen
  check_damage level roll g =
      let (critical, g1) = roll_damage level true g in
      let (fumble, g2) = roll_fumble_damage g in
      if eqb roll 20
      then (some critical, g1)
      else if eqb roll 1
      then (some fumble, g2)
      else (none, g)

  unfoldable pub perform_check : ℕ → ScenarioDifficulty → DiceCheckType → Gen → DiceResult × Gen
  perform_check level difficulty check_type g =
      let (roll, g1) = roll_d20 g in
      let (damage, g2) = check_damage level roll g1 in
      (
        record {
          roll = roll;
          modifier = calculate_modifier level;
          dc = dc difficulty;
          check_type = check_type;
          damage = damage;
        },
        g2,
      )

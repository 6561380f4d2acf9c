-- ===== src/Dice/Bounds.antt =====
-- Ranges of the numbers that a dice check produces.
use ai_saga.Common.{ℕ, zero, suc, ◌*◌, ◌≤◌, ◌<◌, ◌≡◌, ◌⊎◌, true, none, some, arith}
use ai_saga.Values.{DiceCheckType, ScenarioDifficulty}
use ai_saga.Dice.{
  Random, DiceResult, get_damage_dice, roll_d20, sum_rolls, roll_damage, roll_fumble_damage,
  check_damage, perform_check,
}

pub get_damage_dice_bounds :
    (level : ℕ)
    → ((get_damage_dice level).0 ≡ 1)
      × (4 ≤ (get_damage_dice level).1)
      × ((get_damage_dice level).1 ≤ 12)
unfolding get_damage_dice
get_damage_dice_bounds level = ground arith

module _ (r : Random) where
  open r use {Gen, randint_bounds}

  pub sum_rolls_bounds :
      (count sides : ℕ) (g : Gen)
      → 1 ≤ sides
      → (count ≤ (sum_rolls r count sides g).0) × ((sum_rolls r count sides g).0 ≤ count * sides)
  unfolding sum_rolls
  sum_rolls_bounds zero sides g h = omega arith
  sum_rolls_bounds (suc count) sides g h =
      let (x, g1) = r.randint 1 sides g in
      grind (arith, randint_bounds 1 sides g h, sum_rolls_bounds count sides g1 h)

  pub roll_damage_bounds :
      (level : ℕ) (g : Gen)
      → (2 ≤ (roll_damage r level true g).0) × ((roll_damage r level true g).0 ≤ 24)
  unfolding roll_damage
  roll_damage_bounds level g =
      let sides : ℕ = (get_damage_dice level).1 in
      rw ((get_damage_dice_bounds level).0)
        (omega (arith, get_damage_dice_bounds level, sum_rolls_bounds 2 sides g))

  -- What damage a check may carry, by its roll: two dice on a 20, one d4 on a 1, else none.
  abbrev pub DamageFits : DiceResult → Type 0
  DamageFits d =
      ((d.roll ≡ 20) × ((x : ℕ) × (d.damage ≡ some x) × (2 ≤ x) × (x ≤ 24)))
      ⊎ ((d.roll ≡ 1) × ((x : ℕ) × (d.damage ≡ some x) × (1 ≤ x) × (x ≤ 4)))
      ⊎ ((1 < d.roll) × (d.roll < 20) × (d.damage ≡ none))

  -- A check rolls between 1 and 20, and carries between 2 and 24 damage exactly on a 20, between
  -- 1 and 4 exactly on a 1, and none on any other roll.
  pub perform_check-DamageFits :
      (level : ℕ) (difficulty : ScenarioDifficulty) (c : DiceCheckType) (g : Gen)
      → DamageFits (perform_check r level difficulty c g).0
  unfolding perform_check check_damage roll_d20 roll_fumble_damage
  perform_check-DamageFits level difficulty c g =
      let (x, g1) = r.randint 1 20 g in
      ground (arith, randint_bounds 1 20 g, roll_damage_bounds level g1, randint_bounds 1 4 g1)

-- ===== src/Turn/Settle.antt =====
-- The dice decide which of the changes that the language model asks for take effect.
use ai_saga.Common.{
  ℕ, zero, suc, ◌≡◌, ◌⊎◌, Bool, true, false, Option, none, some, [], arith, Bool-cases,
  Option-cases, refl, inl, inr,
}
use ai_saga.Common.Int.{pos, negsuc}
use ai_saga.Dice.{DiceResult, is_success, is_fumble}
use ai_saga.GameState.{StateChanges}
use ai_saga.Turn.Changes.{settle_changes}

-- A check was rolled and failed.
abbrev pub Failed : Option DiceResult → Type 0
Failed dice = (d : DiceResult) × (dice ≡ some d) × (is_success d ≡ false)

-- A check was rolled and is a fumble with `n + 1` damage.
abbrev pub Fumbles : Option DiceResult → ℕ → Type 0
Fumbles dice n =
    (d : DiceResult) × (dice ≡ some d) × (is_fumble d ≡ true) × (d.damage ≡ some (suc n))

-- The part of the changes that no die touches.
pub record Rest (asked settled : StateChanges) : Type 0 where
  pub experience : settled.experience_gained ≡ asked.experience_gained
  pub lost : settled.items_lost ≡ asked.items_lost
  pub npcs : settled.npcs_met ≡ asked.npcs_met
  pub discoveries : settled.discoveries ≡ asked.discoveries

-- Settling, with a check or without one, never touches the experience, the lost items, the people
-- met and the discoveries. It takes away the move and the gained items if a check was rolled, failed
-- and was applied, and leaves them as they are in every other case.
pub settle_changes-Rest :
    (should_apply : Bool) (dice : Option DiceResult) (applied : Bool) (asked : StateChanges)
    → let settled = settle_changes should_apply dice applied asked in
      Rest asked settled
      × (applied ≡ true → Failed dice → (settled.location ≡ none) × (settled.items_gained ≡ []))
      × ((Failed dice → applied ≡ false)
          → (settled.location ≡ asked.location) × (settled.items_gained ≡ asked.items_gained))
unfolding settle_changes
settle_changes-Rest should_apply none applied asked = ground arith
settle_changes-Rest should_apply (some d) applied asked = elim (Bool-cases (is_success d)) [
  | inl good ↦ (ground arith, λ on (x, same, bad). ground arith, λ kept. ground arith)
  | inr bad ↦ (
    ground arith,
    λ on fails. ground arith,
    λ kept. (let off = kept (d, refl, bad) in ground arith),
  )
]

-- A fumble with damage costs exactly that damage, whatever the model asks for and whether it
-- applied the check or not. In every other case, also where no check was rolled, the model's health
-- change stands, except that a check which was due and not applied lets none through.
pub settle_changes-hp :
    (should_apply : Bool) (dice : Option DiceResult) (applied : Bool) (asked : StateChanges)
    → let settled = settle_changes should_apply dice applied asked in
      ((n : ℕ) → Fumbles dice n → settled.hp_change ≡ negsuc n)
      × (((n : ℕ) → Fumbles dice n → ⊥)
          → (should_apply ≡ true → applied ≡ false → settled.hp_change ≡ pos 0)
            × ((should_apply ≡ false) ⊎ (applied ≡ true) → settled.hp_change ≡ asked.hp_change))
unfolding settle_changes
settle_changes-hp should_apply none applied asked =
    (λ n (d, same, f, x). ground arith, λ h. ground arith)
settle_changes-hp should_apply (some d) applied asked = elim (Bool-cases (is_fumble d)) [
  | inr calm ↦ (λ n (x, same, f, hurt). ground arith, λ h. ground arith)
  | inl fumble ↦ elim (Option-cases d.damage) [
    | inl unhurt ↦ (λ n (x, same, f, hurt). ground arith, λ h. ground arith)
    | inr (zero, nothing) ↦ (λ n (x, same, f, hurt). ground arith, λ h. ground arith)
    | inr (suc m, hurt) ↦
        (λ n (x, same, f, hurts). ground arith, λ h. absurd (h m (d, refl, fumble, hurt)))
  ]
]

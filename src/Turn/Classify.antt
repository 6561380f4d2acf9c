-- ===== src/Turn/Classify.antt =====
-- Which texts call for dice.
use ai_saga.Common.{◌≡◌, ◌↔◌, ◌⊎◌, true, false, Option, List, Text, arith}
use ai_saga.Strings.{strip, any_occurs}
use ai_saga.Values.{requires_dice}
use ai_saga.Python.{Python}
use ai_saga.Turn.Action.{
  combat_keywords, social_keywords, skill_keywords, rest_keywords, observation_keywords,
  movement_keywords, preparation_keywords, exploration_keywords, classify, resolve_action_type,
}

-- A keyword of a list occurs in the text.
abbrev pub Speaks : Text → List Text → Type 0
Speaks t keywords = any_occurs keywords t ≡ true

-- An action needs no dice exactly if its lower-case text has no word of fight, talk, skill or risk
-- and has one of rest, preparation, observation or movement; whatever the client's hint says.
pub resolve_action_type-calm :
    (py : Python) (action : Text) (hint : Option Text)
    → let t = strip (py.lower action) in
      (requires_dice (resolve_action_type py action hint) ≡ false) ↔ (
        (any_occurs combat_keywords t ≡ false)
        × (any_occurs social_keywords t ≡ false)
        × (any_occurs skill_keywords t ≡ false)
        × (any_occurs exploration_keywords t ≡ false)
        × (Speaks t rest_keywords
            ⊎ (Speaks t preparation_keywords
                ⊎ (Speaks t observation_keywords ⊎ Speaks t movement_keywords))))
unfolding resolve_action_type classify requires_dice
resolve_action_type-calm py action hint = ground arith

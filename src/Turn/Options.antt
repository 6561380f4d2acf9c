-- ===== src/Turn/Options.antt =====
-- The options that a response offers.
use ai_saga.Common.{◌≤◌, ◌≡◌, ◌≢◌, none, List, [], ◌∷◌, ok, length, All, arith}
use ai_saga.Values.{requires_dice}
use ai_saga.Json.{Json}
use ai_saga.Python.{Python}
use ai_saga.Turn.Action.{ActionOption, normalize_options, resolve_action_type}

-- An option with a label, whose kind and dice are those that its label gets when it is played.
abbrev pub IsPlayable : Python → ActionOption → Type 0
IsPlayable py o =
    (o.label ≢ [])
    × (o.action_type ≡ resolve_action_type py o.label none)
    × (o.requires_dice ≡ requires_dice o.action_type)

-- Where reading the raw options does not raise, every option offered has a label that is not empty,
-- the kind that this label gets as an action, and the need for dice of that kind; and no more
-- options are offered than were given.
pub normalize_options-IsPlayable :
    (py : Python) (raw : List Json) (options : List ActionOption)
    → normalize_options py raw ≡ ok options
    → All (IsPlayable py) options × (length options ≤ length raw)
unfolding normalize_options
normalize_options-IsPlayable py [] options h = ground arith
normalize_options-IsPlayable py (x ∷ xs) options h =
    grind (arith, normalize_options-IsPlayable py xs)

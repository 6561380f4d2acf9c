-- ===== src/MemoryText.antt =====
-- The text under which an answer is remembered:
-- app/game/application/services/game_memory_text_builder.py.
pub mod Remembered
use ai_saga.Common.{true, Option, some, List, [], ◌∷◌, ◌++◌, if◌then◌else◌, Text, text}
use ai_saga.Common.Int.{is_nonzero}
use ai_saga.Strings.{strip, join}
use ai_saga.Json.{Json, Items, Fields, bool, num, str, arr, obj, nil, cons, find}
use ai_saga.Entities.{GameMessage, is_ai_response}
use ai_saga.Python.{Python, display}

-- `", ".join(str(item).strip() for item in items)`
unfoldable pub item_texts : Python → Items → List Text
item_texts py nil = []
item_texts py (cons x xs) = strip (display py x) ∷ item_texts py xs

-- A line with a label, for a list that is not empty.
unfoldable pub list_line : Python → Text → Option Json → List Text
unfolding item_texts
list_line py label (some (arr (cons x xs))) =
    (label ++ join (text ", ") (item_texts py (cons x xs))) ∷ []
list_line py label _ = []

-- A line with a label, for a text that is not blank.
unfoldable pub text_line : Text → Option Json → List Text
text_line label (some (str t)) = elim (strip t) [ [] ↦ [] | c ∷ cs ↦ (label ++ c ∷ cs) ∷ [] ]
text_line label _ = []

-- A line with a label, for an `int` other than 0; `True` is an `int` too.
unfoldable pub number_line : Python → Text → Option Json → List Text
number_line py label (some (num z)) =
    if is_nonzero z then (label ++ display py (num z)) ∷ [] else []
number_line py label (some (bool true)) = (label ++ display py (bool true)) ∷ []
number_line py label _ = []

unfoldable pub build_state_lines : Python → Fields → List Text
unfolding list_line text_line number_line
build_state_lines py changes =
    text_line (text "위치 변화: ") (find (text "location") changes)
    ++ list_line py (text "획득 아이템: ") (find (text "items_gained") changes)
    ++ list_line py (text "소모/분실 아이템: ") (find (text "items_lost") changes)
    ++ list_line py (text "발견: ") (find (text "discoveries") changes)
    ++ list_line py (text "만난 NPC: ") (find (text "npcs_met") changes)
    ++ number_line py (text "HP 변화: ") (find (text "hp_change") changes)
    ++ number_line py (text "경험치 변화: ") (find (text "experience_gained") changes)

unfoldable pub state_lines : Python → Option Json → List Text
unfolding build_state_lines
state_lines py (some (obj changes)) = build_state_lines py changes
state_lines py _ = []

unfoldable pub build_assistant_search_text : Python → Text → Option Json → Text
unfolding state_lines text_line
build_assistant_search_text py raw (some (obj parsed)) =
    elim (text_line [] (find (text "narrative") parsed)
      ++ state_lines py (find (text "state_changes") parsed)) [
        | [] ↦ strip raw
        | t ∷ ts ↦ join (10 ∷ []) (t ∷ ts)
      ]
build_assistant_search_text py raw _ = strip raw

unfoldable pub build_message_memory_text : Python → GameMessage → Text
unfolding build_assistant_search_text
build_message_memory_text py m =
    if is_ai_response m
    then build_assistant_search_text py m.content m.parsed_response
    else strip m.content

-- ===== src/Narrator.antt =====
-- Reading the language model's answers: app/game/domain/services/game_master_service.py, with
-- `EndingType.from_string` of app/game/domain/value_objects/ending_type.py.
pub mod Markup
pub mod Endings
pub mod Fuel
pub use Markup.{normalize_for_comparison, sub}
use ai_saga.Common.{
  Bool, true, false, not, ◌&&◌, ◌||◌, Option, none, some, List, [], ◌∷◌, ◌++◌, map, if◌then◌else◌,
  eqb, Text, text, text_eqb, take, drop, Result, ok, raise, ◌>>=◌, validation_error, or_raise,
}
use ai_saga.Common.Int.{ℤ, pos}
use ai_saga.Strings.{strip, strip_left, starts_with, occurs, before, after, split_at}
use ai_saga.Json.{
  Json, Fields, null, bool, num, str, arr, obj, nil, end, get, truthy, as_texts, as_optional_text,
}
use ai_saga.GameState.{StateChanges}
use ai_saga.Values.{EndingType}
use ai_saga.Session.{GameSession, is_final_turn}
use ai_saga.Character.{CharacterEntity, is_alive}
use ai_saga.Python.{Python}

unfoldable pub should_end_game : GameSession → Bool
should_end_game s = is_final_turn s

unfoldable pub should_end_game_by_death : CharacterEntity → Bool
should_end_game_by_death c = not (is_alive c)

-- `EndingType.from_string`
unfoldable pub from_string : Python → Text → EndingType
from_string py value =
    let lowered = py.lower value in
    if occurs (text "victory") lowered || occurs (text "승리") lowered
    then EndingType.victory
    else if occurs (text "defeat") lowered || occurs (text "패배") lowered
    then EndingType.defeat
    else EndingType.neutral

unfoldable pub parse_ending_type : Python → Text → EndingType
unfolding from_string
parse_ending_type py response = from_string py response

abbrev pub ending_mark : Text
ending_mark = text "[엔딩 내러티브]:"

unfoldable pub extract_narrative_from_ending : Text → Text
extract_narrative_from_ending content =
    if occurs ending_mark content
    then strip (before ending_mark (after ending_mark content))
    else content

abbrev option_marks : List Text
option_marks = text "1." ∷ text "2." ∷ text "3." ∷ text "4." ∷ text "5." ∷ text "-" ∷ text "•" ∷ []

unfoldable pub starts_with_any : List Text → Text → Bool
starts_with_any [] t = false
starts_with_any (p ∷ ps) t = starts_with p t || starts_with_any ps t

unfoldable pub option_lines : List Text → List Text
option_lines [] = []
option_lines (line ∷ lines) =
    let rest = option_lines lines in
    if starts_with_any option_marks (strip line) then strip line ∷ rest else rest

unfoldable pub extract_action_options : Text → List Text
unfolding option_lines
extract_action_options content = take 5 (option_lines (split_at 10 content))

-- The shortest text that ends in a brace which white space and a fence follow.
unfoldable pub fence_body : Text → Option Text
fence_body [] = none
fence_body (c ∷ cs) =
    if eqb c 125 && starts_with (text "```") (strip_left cs)
    then some (c ∷ [])
    else elim (fence_body cs) [ none ↦ none | some rest ↦ some (c ∷ rest) ]

unfoldable pub fence_open : Text → Option Text
fence_open [] = none
fence_open (c ∷ cs) =
    if eqb c 123 then elim (fence_body cs) [ none ↦ none | some rest ↦ some (c ∷ rest) ] else none

-- `re.search` for a fenced JSON block, and its first group.
unfoldable pub find_fenced : Text → Option Text
find_fenced [] = none
find_fenced (c ∷ cs) =
    elim (if starts_with (text "```json") (c ∷ cs)
      then fence_open (strip_left (drop 7 (c ∷ cs)))
      else none) [ some body ↦ some body | none ↦ find_fenced cs ]

unfoldable pub parse_llm_response : Python → Text → Option Json
parse_llm_response py content = elim (strip content) [
  | [] ↦ none
  | c ∷ cs ↦ elim (find_fenced content) [ some body ↦ py.loads body | none ↦ py.loads (c ∷ cs) ]
]

unfoldable pub extract_state_changes : Python → Json → Result StateChanges
extract_state_changes py parsed = do
  changes ← get parsed (text "state_changes") (obj end)
  hp ← get changes (text "hp_change") (num (pos 0))
  xp ← get changes (text "experience_gained") (num (pos 0))
  gained ← get changes (text "items_gained") (arr nil)
  lost ← get changes (text "items_lost") (arr nil)
  place ← get changes (text "location") null
  npcs ← get changes (text "npcs_met") (arr nil)
  found ← get changes (text "discoveries") (arr nil)
  hp_change ← or_raise (py.as_int hp) validation_error
  experience_gained ← or_raise (py.as_int xp) validation_error
  items_gained ← as_texts gained
  items_lost ← as_texts lost
  location ← as_optional_text place
  npcs_met ← as_texts npcs
  discoveries ← as_texts found
  ok (record {
    hp_change = hp_change;
    experience_gained = experience_gained;
    items_gained = items_gained;
    items_lost = items_lost;
    location = location;
    npcs_met = npcs_met;
    discoveries = discoveries;
  })

unfoldable pub extract_narrative_from_parsed : Json → Text → Result Json
extract_narrative_from_parsed parsed fallback = get parsed (text "narrative") (str fallback)

unfoldable pub extract_options_from_parsed : Json → Result Json
extract_options_from_parsed parsed = get parsed (text "options") (arr nil)

unfoldable pub extract_dice_applied : Json → Result Json
extract_dice_applied parsed = get parsed (text "dice_applied") (bool false)

-- Whether the two texts tell the same: equal after normalisation, or one within the other. A text
-- that normalises to nothing does not count.
unfoldable pub is_repetition : Text → Text → Bool
is_repetition [] narrative = false
is_repetition (c ∷ cs) [] = false
is_repetition (c ∷ cs) (d ∷ ds) =
    text_eqb (c ∷ cs) (d ∷ ds) || occurs (c ∷ cs) (d ∷ ds) || occurs (d ∷ ds) (c ∷ cs)

abbrev pub blank : Text → Bool
blank t = elim (strip t) [ [] ↦ true | _ ↦ false ]

-- The two early returns on a blank text, and the comparison.
unfoldable pub keep_before : Text → Json → Json
keep_before first (str narrative) =
    if blank first || blank narrative
    then str first
    else if is_repetition (normalize_for_comparison first) (normalize_for_comparison narrative)
    then null
    else str first
keep_before first null = str first
keep_before first (bool b) = str first
keep_before first (num z) = str first
keep_before first (Json.real b t) = str first
keep_before first (arr xs) = str first
keep_before first (obj fs) = str first

unfoldable pub keep_text : Json → Json → Json
unfolding keep_before
keep_text (str first) narrative = keep_before first narrative
keep_text null narrative = null
keep_text (bool b) narrative = bool b
keep_text (num z) narrative = num z
keep_text (Json.real b t) narrative = Json.real b t
keep_text (arr xs) narrative = arr xs
keep_text (obj fs) narrative = obj fs

unfoldable pub extract_before_narrative_from_parsed : Json → Result Json
unfolding keep_text
extract_before_narrative_from_parsed parsed = do
  first ← get parsed (text "before_narrative") null
  narrative ← get parsed (text "narrative") null
  ok (keep_text first narrative)

unfoldable pub filter_state_changes_on_dice_failure : StateChanges → StateChanges
filter_state_changes_on_dice_failure changes = record changes { location = none; items_gained = [] }

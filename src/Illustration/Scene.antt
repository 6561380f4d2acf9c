-- ===== src/Illustration/Scene.antt =====
-- The scene that a narrative and its state changes describe:
-- app/game/application/services/illustration_scene_spec_builder.py.
pub mod Details
use ai_saga.Common.{
  ℕ, zero, suc, ◌+◌, Bool, true, false, not, ◌&&◌, ◌||◌, Option, none, some, List, [], ◌∷◌, ◌++◌,
  map, if◌then◌else◌, is_nil, length, Text, text,
}
use ai_saga.Strings.{occurs, any_occurs, join}
use ai_saga.Json.{Json, Items, Fields, nil, cons, arr, find}
use ai_saga.Illustration.{
  IllustrationPromptContext, IllustrationSceneSpec, normalize_str, normalize_json, put_word, dedupe,
}
use ai_saga.Illustration.Hints.{figure_hints, prop_hints, location_hints}

-- The labels of the hints whose token occurs.
unfoldable pub matches : List (Text × Text) → Text → List Text
unfolding occurs
matches [] narrative = []
matches ((token, label) ∷ hints) narrative =
    let rest = matches hints narrative in if occurs token narrative then label ∷ rest else rest

unfoldable pub extract_other_visible_figures : Text → List Text
unfolding matches dedupe
extract_other_visible_figures narrative = dedupe (matches figure_hints narrative)

unfoldable pub extract_required_props : Text → List Text
unfolding matches dedupe
extract_required_props narrative = dedupe (matches prop_hints narrative)

-- The texts of a list that do not normalise to nothing.
unfoldable pub normalize_items : Items → List Text
unfolding normalize_json put_word
normalize_items nil = []
normalize_items (cons x xs) = put_word (normalize_json x 120) (normalize_items xs)

-- `_normalize_string_list` of a value that may be missing.
unfoldable pub normalize_string_list : Option Json → List Text
unfolding normalize_items
normalize_string_list (some (arr xs)) = normalize_items xs
normalize_string_list _ = []

unfoldable pub normalize_optional : Option Json → ℕ → Text
unfolding normalize_json
normalize_optional none n = []
normalize_optional (some v) n = normalize_json v n

-- `x or y` on texts
unfoldable pub or_else : Text → Text → Text
or_else [] t = t
or_else (c ∷ cs) t = c ∷ cs

unfoldable pub extract_state_location : Option Fields → Text → Text
unfolding normalize_str normalize_optional or_else
extract_state_location none current = normalize_str current 200
extract_state_location (some fs) current =
    or_else (normalize_optional (find (text "location") fs) 200) (normalize_str current 200)

-- The texts of a list in the state changes, each with a label before it.
unfoldable pub labelled : Text → Text → Fields → List Text
unfolding normalize_string_list find
labelled label key fs = map (λ t. label ++ t) (normalize_string_list (find key fs))

unfoldable pub extract_state_visible_figures : Option Fields → List Text
unfolding labelled
extract_state_visible_figures none = []
extract_state_visible_figures (some fs) = labelled (text "named NPC present: ") (text "npcs_met") fs

unfoldable pub extract_state_required_props : Option Fields → List Text
unfolding labelled
extract_state_required_props none = []
extract_state_required_props (some fs) =
    labelled (text "discovered clue: ") (text "discoveries") fs
    ++ (labelled (text "newly acquired item: ") (text "items_gained") fs
        ++ labelled (text "recently lost item: ") (text "items_lost") fs)

unfoldable pub location_line : Text → List Text
location_line [] = []
location_line (c ∷ cs) = (text "Confirmed location: " ++ (c ∷ cs)) ∷ []

unfoldable pub build_state_fact_lines : Option Fields → List Text
unfolding labelled location_line normalize_optional
build_state_fact_lines none = []
build_state_fact_lines (some fs) =
    location_line (normalize_optional (find (text "location") fs) 200)
    ++ (labelled (text "Confirmed NPC presence: ") (text "npcs_met") fs
        ++ (labelled (text "Confirmed discovery: ") (text "discoveries") fs
            ++ (labelled (text "Confirmed newly acquired item: ") (text "items_gained") fs
                ++ labelled (text "Confirmed recently lost item: ") (text "items_lost") fs)))

-- `all(token in narrative for token in tokens)`
unfoldable pub all_occur : List Text → Text → Bool
unfolding occurs
all_occur [] narrative = true
all_occur (token ∷ tokens) narrative = occurs token narrative && all_occur tokens narrative

unfoldable pub hinted_location : List (List Text × Text) → Text → Text → Text
unfolding all_occur
hinted_location [] narrative current = current
hinted_location ((tokens, inferred) ∷ hints) narrative current =
    if all_occur tokens narrative then inferred else hinted_location hints narrative current

unfoldable pub infer_location : Text → Text → Text
unfolding hinted_location occurs
infer_location narrative current =
    if not (is_nil current) && not (occurs (text "카운터") narrative)
    then current
    else hinted_location location_hints narrative current

-- A fragment if one of the words occurs.
unfoldable pub fragment : List Text → Text → Text → List Text
unfolding any_occurs
fragment tokens said narrative = if any_occurs tokens narrative then said ∷ [] else []

unfoldable pub or_restrained : List Text → List Text
or_restrained [] = text "restrained story tension" ∷ []
or_restrained (t ∷ ts) = t ∷ ts

unfoldable pub infer_mood_and_lighting : Text → Text
unfolding fragment or_restrained dedupe join
infer_mood_and_lighting narrative = join (text ", ") (
    dedupe (
      or_restrained (
        fragment (text "촛불" ∷ text "흐릿" ∷ []) (text "dim candlelit tension") narrative
        ++ (fragment (text "햇살" ∷ text "한낮" ∷ []) (text "daylight with uneasy calm") narrative
            ++ (fragment
                  (text "복수" ∷ text "예리" ∷ text "거친" ∷ text "위태" ∷ text "달려든다" ∷ text "마주친다" ∷ [])
                  (text "restrained danger") narrative
                ++ fragment (text "묵묵히" ∷ text "잠시" ∷ []) (text "held stillness before action")
                    narrative)))))

-- The figures of the state changes, or else those of the narrative.
unfoldable pub visible_figures : List Text → List Text → List Text
visible_figures [] narrated = narrated
visible_figures (t ∷ ts) narrated = t ∷ ts

unfoldable pub has_protagonist : Text → Text → Bool
unfolding normalize_str occurs
has_protagonist name beat = not (is_nil (normalize_str name 100)) || occurs (text "당신") beat

-- At least one figure is visible.
unfoldable pub figure_count : List Text → Bool → ℕ
figure_count figures true = length figures + 1
figure_count [] false = 1
figure_count (t ∷ ts) false = length (t ∷ ts)

unfoldable pub key_beat : IllustrationPromptContext → Text
unfolding or_else normalize_json
key_beat context =
    or_else (normalize_json context.scene_narrative 320) (text "mysterious fantasy adventure scene")

unfoldable pub build_scene : IllustrationPromptContext → IllustrationSceneSpec
unfolding key_beat infer_location extract_state_location visible_figures
    extract_state_visible_figures extract_other_visible_figures dedupe extract_state_required_props
    extract_required_props build_state_fact_lines has_protagonist figure_count
    infer_mood_and_lighting
build_scene context =
    let beat = key_beat context in
    let changes = context.state_changes in
    let figures =
      visible_figures (extract_state_visible_figures changes)
        (extract_other_visible_figures beat) in
    record {
      location = infer_location beat (extract_state_location changes context.current_location);
      visible_character_count = figure_count figures (has_protagonist context.character_name beat);
      other_visible_figures = figures;
      required_props = dedupe (extract_state_required_props changes ++ extract_required_props beat);
      state_fact_lines = build_state_fact_lines changes;
      key_visual_beat = beat;
      mood_and_lighting = infer_mood_and_lighting beat;
    }

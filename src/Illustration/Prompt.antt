-- ===== src/Illustration/Prompt.antt =====
-- The prompt of an image: `IllustrationPromptBuilder` of
-- app/game/application/services/illustration_prompt_builder.py, and the making of its context and
-- parts in app/game/application/services/illustration_generation_service.py.
pub mod Rules
use ai_saga.Common.{
  ℕ, Bool, Option, none, some, List, [], ◌∷◌, ◌++◌, ◌||◌, map, if◌then◌else◌, Text, text, eqb,
  Result, ok, ◌>>=◌, false,
}
use ai_saga.Common.Int.{pos}
use ai_saga.Strings.{join}
use ai_saga.Json.{Json, Fields, obj, str, num, find}
use ai_saga.Python.{Python, display}
use ai_saga.Entities.{Scenario}
use ai_saga.Narrator.{extract_narrative_from_parsed}
use ai_saga.Values.{genre_value}
use ai_saga.Illustration.{
  IllustrationPromptContext, IllustrationSceneSpec, IllustrationVisualProfile, normalize_str,
  normalize_json,
}
use ai_saga.Illustration.Scene.{or_else, build_scene}
use ai_saga.Illustration.Profile.{resolve_profile}

unfoldable pub ends_sentence : Text → Bool
ends_sentence [] = false
ends_sentence (c ∷ []) = eqb c 46 || eqb c 33 || eqb c 63
ends_sentence (c ∷ d ∷ cs) = ends_sentence (d ∷ cs)

unfoldable pub ensure_terminal_punctuation : Text → Text
unfolding ends_sentence
ensure_terminal_punctuation [] = []
ensure_terminal_punctuation (c ∷ cs) =
    if ends_sentence (c ∷ cs) then c ∷ cs else (c ∷ cs) ++ text "."

-- A part with a label before a text that is not empty, and a mark after it.
unfoldable pub part : Text → (Text → Text) → Text → List Text
part label close [] = []
part label close (c ∷ cs) = (label ++ close (c ∷ cs)) ∷ []

-- A part that lists texts.
unfoldable pub list_part : Text → List Text → List Text
unfolding join
list_part label [] = []
list_part label (t ∷ ts) = (label ++ (join (text ", ") (t ∷ ts) ++ text ".")) ∷ []

unfoldable pub fact_part : List Text → List Text
unfolding ensure_terminal_punctuation join
fact_part [] = []
fact_part (t ∷ ts) =
    (text "These scene facts must stay true: "
      ++ join (text " ") (map ensure_terminal_punctuation (t ∷ ts)))
    ∷ []

abbrev pub closing_rules : List Text
closing_rules =
    (text "No readable text, letters, words, numbers, captions, "
      ++ text "dialogue balloons, sound effects, subtitles, signage, "
      ++ text "labels, logos, or watermarks anywhere in the image.")
    ∷ (text "Do not render documents, white text boxes, book pages, "
        ++ text "forms, posters, menus, HUDs, chat windows, or comic panels.")
    ∷ (text "This must look like a clean illustration, not a "
        ++ text "text-heavy graphic, screenshot, or UI mockup.")
    ∷ []

abbrev pub concat : List (List Text) → List Text
concat [] = []
concat (ts ∷ rest) = ts ++ concat rest

module _ (py : Python) where
  unfoldable pub count_line : ℕ → Text
  unfolding display
  count_line n = text "Show exactly " ++ (display py (num (pos n)) ++ text " visible figures.")

  -- The parts of a prompt, in groups.
  unfoldable pub prompt_parts :
      IllustrationPromptContext
      → IllustrationSceneSpec
      → IllustrationVisualProfile
      → List (List Text)
  unfolding or_else normalize_json normalize_str ensure_terminal_punctuation part list_part
      fact_part count_line
  prompt_parts context scene profile =
      let narrative =
        or_else (normalize_json context.scene_narrative 500)
          (or_else (normalize_str scene.key_visual_beat 500) (text "mysterious scene")) in
      (profile.opening_line ∷ text "Single-panel illustration only." ∷ [])
      ∷ ((text "Depict this exact story moment: " ++ ensure_terminal_punctuation narrative) ∷ [])
      ∷ part (text "Set the scene at ") ensure_terminal_punctuation scene.location
      ∷ part (text "The main focus is ") (λ t. t ++ text ".")
          (normalize_str context.character_name 100)
      ∷ (count_line scene.visible_character_count ∷ [])
      ∷ list_part (text "Only these additional visible figures appear: ")
          scene.other_visible_figures
      ∷ list_part (text "Important visual details: ") scene.required_props
      ∷ fact_part scene.state_fact_lines
      ∷ part (text "Keep the protagonist visually consistent with: ") ensure_terminal_punctuation
          (normalize_str context.character_description 240)
      ∷ part [] (λ t. t) profile.world_guidance
      ∷ profile.anchor_lines
      ∷ profile.negative_guidance
      ∷ closing_rules
      ∷ []

  unfoldable pub build_prompt :
      IllustrationPromptContext → IllustrationSceneSpec → IllustrationVisualProfile → Text
  unfolding prompt_parts join
  build_prompt context scene profile = join (text " ") (concat (prompt_parts context scene profile))

  -- `build_scene_narrative`: the narrative of an answer that is a dictionary, or the text itself.
  unfoldable pub build_scene_narrative : Text → Option Json → Result Json
  unfolding extract_narrative_from_parsed
  build_scene_narrative raw (some (obj fs)) = extract_narrative_from_parsed (obj fs) raw
  build_scene_narrative raw _ = ok (str raw)

  -- The state changes of an answer, if both are dictionaries.
  unfoldable pub state_changes_of : Option Json → Option Fields
  unfolding find
  state_changes_of (some (obj fs)) = elim (find (text "state_changes") fs) [
    | some (obj changes) ↦ some changes
    | _ ↦ none
  ]
  state_changes_of _ = none

  unfoldable pub build_context :
      Json → Option Json → Text → Text → Text → Scenario → IllustrationPromptContext
  unfolding state_changes_of
  build_context narrative parsed name description location scenario = record {
    scene_narrative = narrative;
    character_name = name;
    character_description = description;
    current_location = location;
    scenario_name = scenario.name;
    scenario_genre = genre_value scenario.genre;
    scenario_world_setting = scenario.world_setting;
    scenario_tags = scenario.tags;
    state_changes = state_changes_of parsed;
  }

  -- The prompt that `IllustrationGenerationService.generate` hands on.
  unfoldable pub illustration_prompt : IllustrationPromptContext → Result Text
  unfolding build_scene resolve_profile build_prompt
  illustration_prompt context = do
    profile ← resolve_profile py context
    ok (build_prompt context (build_scene context) profile)

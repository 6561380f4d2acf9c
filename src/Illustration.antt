-- ===== src/Illustration.antt =====
-- Illustrations of a message: what goes into the prompt of an image
-- (app/game/application/services/illustration_prompt_builder.py), with the normalisation of texts
-- that its makers share.
pub mod Hints
pub mod Scene
pub mod Profile
pub mod Prompt
pub mod Images
pub mod Requests
use ai_saga.Common.{ℕ, Option, List, [], ◌∷◌, if◌then◌else◌, Text, text, take, contains}
use ai_saga.Strings.{is_space, join}
use ai_saga.Json.{Json, Fields, null, bool, num, real, str, arr, obj}
use ai_saga.GameState.{append_missing}

-- The narrative is what a parsed answer holds, which need not be a text.
pub record IllustrationPromptContext : Type 0 where
  pub scene_narrative : Json
  pub character_name : Text
  pub character_description : Text
  pub current_location : Text
  pub scenario_name : Text
  pub scenario_genre : Text
  pub scenario_world_setting : Text
  pub scenario_tags : List Text
  pub state_changes : Option Fields

pub record IllustrationSceneSpec : Type 0 where
  pub location : Text
  pub visible_character_count : ℕ
  pub other_visible_figures : List Text
  pub required_props : List Text
  pub state_fact_lines : List Text
  pub key_visual_beat : Text
  pub mood_and_lighting : Text

pub record IllustrationVisualProfile : Type 0 where
  pub opening_line : Text
  pub world_guidance : Text
  pub anchor_lines : List Text
  pub negative_guidance : List Text

-- A word before the other words, if it has a letter.
unfoldable pub put_word : Text → List Text → List Text
put_word [] ws = ws
put_word (c ∷ cs) ws = (c ∷ cs) ∷ ws

-- The letters up to the first white space, and the words after it.
unfoldable pub word_parts : Text → Text × List Text
unfolding is_space put_word
word_parts [] = ([], [])
word_parts (c ∷ cs) =
    let (w, ws) = word_parts cs in if is_space c then ([], put_word w ws) else (c ∷ w, ws)

-- `t.split()`
unfoldable pub words : Text → List Text
unfolding word_parts put_word
words t = let (w, ws) = word_parts t in put_word w ws

-- `" ".join(value.split())[:max_length]`
unfoldable pub normalize_str : Text → ℕ → Text
unfolding words join
normalize_str t n = take n (join (text " ") (words t))

-- `_normalize_text`: what is no text is the empty one.
unfoldable pub normalize_json : Json → ℕ → Text
unfolding normalize_str
normalize_json (str t) n = normalize_str t n
normalize_json null n = []
normalize_json (bool b) n = []
normalize_json (num z) n = []
normalize_json (real b t) n = []
normalize_json (arr xs) n = []
normalize_json (obj fs) n = []

-- A text before the others, if it is not empty.
unfoldable pub non_empty_texts : List Text → List Text
unfolding put_word
non_empty_texts [] = []
non_empty_texts (t ∷ ts) = put_word t (non_empty_texts ts)

-- `_dedupe`
unfoldable pub dedupe : List Text → List Text
unfolding non_empty_texts append_missing
dedupe ts = append_missing [] (non_empty_texts ts)

-- ===== src/Illustration/Profile.antt =====
-- The visual direction of a scenario:
-- app/game/application/services/illustration_scenario_profile_resolver.py. The genres are those of
-- `ScenarioGenre`, whose values are keys of the table already.
use ai_saga.Common.{
  Option, none, some, List, [], ◌∷◌, ◌++◌, if◌then◌else◌, Text, text, Result, ok, raise, ◌>>=◌,
  type_error, text_eqb, map, eqb, ◌||◌, ℕ,
}
use ai_saga.Values.{ScenarioGenre, genre_value}
use ai_saga.Strings.{any_occurs, join}
use ai_saga.Json.{Json, truthy, null, bool, num, real, str, arr, obj}
use ai_saga.Python.{Python}
use ai_saga.GameState.{append_missing}
use ai_saga.Illustration.{
  IllustrationPromptContext, IllustrationVisualProfile, normalize_str, non_empty_texts,
}

-- `_GENRE_PROFILES`
unfoldable pub genre_profile : ScenarioGenre → IllustrationVisualProfile
genre_profile ScenarioGenre.fantasy = record {
  opening_line =
      (text "Create a cinematic Korean fantasy illustration for a single story " ++ text "moment.");
  world_guidance = text "Keep the world grounded in medieval fantasy.";
  anchor_lines = [];
  negative_guidance = [];
}
genre_profile ScenarioGenre.sci_fi = record {
  opening_line =
      (text "Create a cinematic science-fiction illustration for a single story "
        ++ text "moment.");
  world_guidance = text "Keep the world grounded in sci-fi.";
  anchor_lines = [];
  negative_guidance = text "Do not introduce medieval fantasy, Joseon-era, or feudal motifs." ∷ [];
}
genre_profile ScenarioGenre.cyberpunk = record {
  opening_line =
      (text "Create a gritty cinematic cyberpunk illustration for a single story "
        ++ text "moment.");
  world_guidance =
      (text "Keep the world grounded in cyberpunk, with near-future technology, "
        ++ text "dense urban decay, surveillance, and neon-lit tension.");
  anchor_lines = [];
  negative_guidance =
      (text "Do not introduce medieval fantasy, Joseon-era, or pastoral historical "
        ++ text "motifs.")
      ∷ [];
}
genre_profile ScenarioGenre.horror = record {
  opening_line =
      (text "Create a bleak cinematic horror illustration for a single story " ++ text "moment.");
  world_guidance =
      (text "Keep the world grounded in oppressive horror and credible physical " ++ text "dread.");
  anchor_lines = [];
  negative_guidance =
      (text "Do not introduce heroic fantasy pageantry, palace drama, or ornate "
        ++ text "historical court imagery.")
      ∷ [];
}
genre_profile ScenarioGenre.survival = record {
  opening_line =
      (text "Create a gritty cinematic post-apocalyptic survival illustration for "
        ++ text "a single story moment.");
  world_guidance = text "Keep the world grounded in harsh survival drama.";
  anchor_lines = [];
  negative_guidance =
      (text "Do not introduce medieval fantasy, Joseon-era, hanbok, palace "
        ++ text "architecture, or swords-and-sorcery motifs.")
      ∷ [];
}
genre_profile ScenarioGenre.mystery = record {
  opening_line =
      (text "Create a cinematic mystery thriller illustration for a single story "
        ++ text "moment.");
  world_guidance = text "Keep the world grounded in investigative tension and suspense.";
  anchor_lines = [];
  negative_guidance = [];
}
genre_profile ScenarioGenre.historical = record {
  opening_line = text "Create a cinematic historical illustration for a single story moment.";
  world_guidance =
      (text "Keep the world grounded in historical realism and period appropriate "
        ++ text "material culture.");
  anchor_lines = [];
  negative_guidance = [];
}
genre_profile ScenarioGenre.post_apocalyptic = record {
  opening_line =
      (text "Create a gritty cinematic post-apocalyptic survival illustration for "
        ++ text "a single story moment.");
  world_guidance =
      (text "Keep the world grounded in post-apocalyptic survival realism, with "
        ++ text "scarcity, ruin, and practical danger.");
  anchor_lines = [];
  negative_guidance =
      (text "Do not introduce medieval fantasy, Joseon-era, hanbok, palace "
        ++ text "architecture, or swords-and-sorcery motifs.")
      ∷ [];
}

-- The genre with a key of the table.
unfoldable pub known_genre : Text → List ScenarioGenre → Option ScenarioGenre
known_genre t [] = none
known_genre t (g ∷ gs) = if text_eqb (genre_value g) t then some g else known_genre t gs

abbrev genres : List ScenarioGenre
genres =
    ScenarioGenre.fantasy ∷ ScenarioGenre.sci_fi ∷ ScenarioGenre.cyberpunk ∷ ScenarioGenre.horror
    ∷ ScenarioGenre.survival ∷ ScenarioGenre.mystery ∷ ScenarioGenre.historical
    ∷ ScenarioGenre.post_apocalyptic ∷ []

abbrev underscored : ℕ → ℕ
underscored c = if eqb c 45 || eqb c 32 then 95 else c

-- `replace("-", "_").replace(" ", "_")`
unfoldable pub canonicalize_genre : Python → Text → Text
canonicalize_genre py genre = map underscored (py.lower genre)

unfoldable pub other_profile : Text → IllustrationVisualProfile
other_profile genre = record {
  opening_line = text "Create a cinematic genre illustration for a single story moment.";
  world_guidance =
      text "Keep the world grounded in " ++ genre ++ text ", and avoid unrelated visual motifs.";
  anchor_lines = [];
  negative_guidance = [];
}

unfoldable pub get_genre_profile : Python → Text → IllustrationVisualProfile
unfolding genre_profile known_genre canonicalize_genre other_profile
get_genre_profile py [] = genre_profile ScenarioGenre.fantasy
get_genre_profile py (c ∷ cs) = elim (known_genre (canonicalize_genre py (c ∷ cs)) genres) [
  | none ↦ other_profile (c ∷ cs)
  | some g ↦ genre_profile g
]

-- The narrative among the texts that are joined: only a text can be.
unfoldable pub joinable : Json → Result Text
unfolding truthy
joinable (str t) = ok t
joinable null = ok []
joinable (bool b) = if b then raise type_error else ok []
joinable (num z) = if truthy (num z) then raise type_error else ok []
joinable (real b t) = if b then raise type_error else ok []
joinable (arr xs) = if truthy (arr xs) then raise type_error else ok []
joinable (obj fs) = if truthy (obj fs) then raise type_error else ok []

-- `" ".join(filter(None, texts)).lower()`
unfoldable pub combine : Python → List Text → Text
unfolding non_empty_texts join
combine py ts = py.lower (join (text " ") (non_empty_texts ts))

abbrev zombie_words : List Text
zombie_words =
    text "좀비" ∷ text "zombie" ∷ text "apocalypse" ∷ text "아포칼립스" ∷ text "감염" ∷ text "infected" ∷ []

-- A line on a text that is not empty.
unfoldable pub context_line : Text → Text → ℕ → List Text
unfolding normalize_str
context_line label [] n = []
context_line label (c ∷ cs) n = (label ++ (normalize_str (c ∷ cs) n ++ text ".")) ∷ []

unfoldable pub anchors_of : Text → IllustrationPromptContext → List Text
unfolding any_occurs context_line
anchors_of combined context =
    if any_occurs zombie_words combined
    then (text "Scenario anchor: zombie apocalypse in ruined modern Seoul, with infected "
        ++ text
            "undead, abandoned buildings, scavenged modern gear, and constant survival tension.")
      ∷ []
    else if any_occurs (text "cyberpunk" ∷ text "네오 서울" ∷ []) combined
    then (text "Scenario anchor: dystopian near-future Seoul with cyberware, neon signage, "
        ++ text "dense infrastructure, surveillance, and corporate decay.")
      ∷ []
    else context_line (text "Scenario context: ") context.scenario_name 120
      ++ context_line (text "World context: ") context.scenario_world_setting 260

unfoldable pub build_anchor_lines : Python → IllustrationPromptContext → Result (List Text)
unfolding joinable combine anchors_of
build_anchor_lines py context = do
  narrative ← joinable context.scene_narrative
  ok (
      anchors_of
        (combine py (
          context.scenario_name
          ∷ context.scenario_world_setting
          ∷ context.scenario_genre
          ∷ narrative
          ∷ context.current_location
          ∷ join (text " ") context.scenario_tags
          ∷ []))
        context)

unfoldable pub merge_negative_guidance :
    Python → IllustrationPromptContext → IllustrationVisualProfile → Result (List Text)
unfolding joinable combine any_occurs append_missing
merge_negative_guidance py context profile = do
  narrative ← joinable context.scene_narrative
  let combined = combine py (
      context.scenario_name
      ∷ context.scenario_world_setting
      ∷ narrative
      ∷ context.current_location
      ∷ join (text " ") context.scenario_tags
      ∷ [])
  ok (
      append_missing [] (
        profile.negative_guidance
        ++ (if any_occurs zombie_words combined
            then (text "Do not introduce medieval fantasy, Joseon-era court imagery, hanbok, "
                ++ text "palaces, magical glyphs, or swords-and-sorcery styling.")
              ∷ []
            else [])))

unfoldable pub resolve_profile :
    Python → IllustrationPromptContext → Result IllustrationVisualProfile
unfolding get_genre_profile build_anchor_lines merge_negative_guidance normalize_str
resolve_profile py context = do
  let base = get_genre_profile py (normalize_str context.scenario_genre 80)
  anchors ← build_anchor_lines py context
  guidance ← merge_negative_guidance py context base
  ok (record {
    opening_line = base.opening_line;
    world_guidance = base.world_guidance;
    anchor_lines = anchors;
    negative_guidance = guidance;
  })

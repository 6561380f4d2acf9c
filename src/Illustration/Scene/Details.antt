-- ===== src/Illustration/Scene/Details.antt =====
-- What a scene shows: its figures, its props and its beat.
use ai_saga.Common.{
  text, ◌≡◌, ◌≤◌, ◌+◌, ◌∙◌, refl, true, false, not, ◌&&◌, ◌||◌, List, [], ◌∷◌, ◌++◌, is_nil, length,
  Bool, Text, text_eqb, text_eqb_iff, contains, arith,
}
use ai_saga.Strings.{occurs}
use ai_saga.GameState.Members.{
  Unique, append_missing-Unique, contains-append_missing, contains-append,
}
use ai_saga.Illustration.{
  IllustrationPromptContext, normalize_json, put_word, non_empty_texts, dedupe,
}
use ai_saga.Illustration.Hints.{prop_hints}
use ai_saga.Illustration.Scene.{
  matches, extract_required_props, extract_state_required_props, figure_count, key_beat, or_else,
  build_scene,
}

pub dedupe-Unique : (ts : List Text) → Unique (dedupe ts)
unfolding dedupe
dedupe-Unique ts = append_missing-Unique [] (non_empty_texts ts) tt

contains-non_empty_texts :
    (y : Text) (ts : List Text)
    → contains y (non_empty_texts ts) ≡ (not (is_nil y) && contains y ts)
unfolding non_empty_texts put_word
contains-non_empty_texts y [] = ground arith
contains-non_empty_texts y ([] ∷ ts) =
    ground (arith, contains-non_empty_texts y ts, text_eqb_iff y [])
contains-non_empty_texts y ((c ∷ cs) ∷ ts) =
    ground (arith, contains-non_empty_texts y ts, text_eqb_iff y (c ∷ cs))

pub contains-dedupe :
    (y : Text) (ts : List Text) → contains y (dedupe ts) ≡ (not (is_nil y) && contains y ts)
unfolding dedupe
contains-dedupe y ts =
    contains-append_missing y [] (non_empty_texts ts) ∙ contains-non_empty_texts y ts

-- Whether a word in the narrative stands for the label.
abbrev pub hinted : List (Text × Text) → Text → Text → Bool
hinted [] narrative y = false
hinted ((token, label) ∷ hints) narrative y =
    (occurs token narrative && text_eqb y label) || hinted hints narrative y

contains-matches :
    (y : Text) (hints : List (Text × Text)) (narrative : Text)
    → contains y (matches hints narrative) ≡ hinted hints narrative y
unfolding matches
contains-matches y [] narrative = refl
contains-matches y ((token, label) ∷ hints) narrative =
    ground (arith, contains-matches y hints narrative)

contains-extract_required_props :
    (y narrative : Text)
    → contains y (extract_required_props narrative)
      ≡ (not (is_nil y) && hinted prop_hints narrative y)
unfolding extract_required_props
contains-extract_required_props y narrative =
    rw (contains-dedupe y (matches prop_hints narrative), contains-matches y prop_hints narrative)
      refl

figure_count_lem :
    (figures : List Text) (hero : Bool)
    → (1 ≤ figure_count figures hero)
      × (length figures ≤ figure_count figures hero)
      × (figure_count figures hero ≤ length figures + 1)
unfolding figure_count
figure_count_lem figures true = ground arith
figure_count_lem [] false = ground arith
figure_count_lem (t ∷ ts) false = ground arith

or_else-full : (t u : Text) → is_nil u ≡ false → is_nil (or_else t u) ≡ false
unfolding or_else
or_else-full [] u h = h
or_else-full (c ∷ cs) u h = refl

-- A scene that agrees with its context.
pub record Details (context : IllustrationPromptContext) : Type 0 where
  pub unique : Unique (build_scene context).required_props
  pub props :
      (y : Text)
      → contains y (build_scene context).required_props ≡ (
          not (is_nil y)
          && (contains y (extract_state_required_props context.state_changes)
              || hinted prop_hints (key_beat context) y))
  pub someone : 1 ≤ (build_scene context).visible_character_count
  pub others :
      length (build_scene context).other_visible_figures
      ≤ (build_scene context).visible_character_count
  pub at_most :
      (build_scene context).visible_character_count
      ≤ length (build_scene context).other_visible_figures + 1
  pub beat : is_nil (build_scene context).key_visual_beat ≡ false

props_lem :
    (y : Text) (a : List Text) (n : Text)
    → contains y (dedupe (a ++ extract_required_props n))
      ≡ (not (is_nil y) && (contains y a || hinted prop_hints n y))
props_lem y a n = grind (
  arith,
  contains-dedupe y (a ++ extract_required_props n),
  contains-append y a (extract_required_props n),
  contains-extract_required_props y n,
)

-- The props of a scene are the named ones of the state changes and those that a word in the
-- narrative stands for, each of them once. It shows someone, and at most one figure more than it
-- names, and its beat is not empty.
pub build_scene-Details : (context : IllustrationPromptContext) → Details context
unfolding build_scene key_beat
build_scene-Details context = record {
  unique = dedupe-Unique (
      extract_state_required_props context.state_changes
      ++ extract_required_props (key_beat context));
  props = λ y. props_lem y (extract_state_required_props context.state_changes) (key_beat context);
  someone = (figure_count_lem _ _).0;
  others = (figure_count_lem _ _).1;
  at_most = (figure_count_lem _ _).2;
  beat =
      or_else-full (normalize_json context.scene_narrative 320)
        (text "mysterious fantasy adventure scene") refl;
}

-- ===== src/Turn/Normal.antt =====
-- A turn that is not the last: `_handle_normal_turn` and `_build_persisted_parsed_response` of
-- app/game/application/use_cases/process_action.py.
use ai_saga.Common.{
  ℕ, Bool, false, Option, none, some, List, [], ◌∷◌, if◌then◌else◌, Text, text, Result, ok, raise,
  or_raise, type_error, scenario_not_found, character_not_found,
}
use ai_saga.Values.{ActionType, EndingType, MessageRole, requires_dice}
use ai_saga.Json.{
  Json, Fields, null, bool, num, str, arr, obj, truthy, set_field, pop_field, field, end, texts,
  as_text, as_optional_text,
}
use ai_saga.Entities.{GameMessage, GameMemory, MemoryType, Scenario}
use ai_saga.GameState.{StateChanges, from_dict}
use ai_saga.Session.{GameSession, complete, update_location, update_game_state}
use ai_saga.Character.{CharacterEntity}
use ai_saga.Dice.{DiceResult, perform_check}
use ai_saga.Narrator
use ai_saga.MemoryText.{build_assistant_search_text}
use ai_saga.Store.Tables.{find_character, find_scenario}
use ai_saga.Store.Monad.{◌>>=◌, ◌>>◌, pure, lift, gets}
use ai_saga.Store.Services.{Services, LlmResponse, Response, action, ending}
use ai_saga.Turn.Action.{
  ActionOption, resolve_action_type, to_dice_check_type, normalize_action_options,
}
use ai_saga.Turn.Changes.{settle_changes, touches_character, update_character}
use ai_saga.Turn.Effects.{
  Act, read_clock, generate_embedding, generate_response, create_message, create_memory,
  save_session_row, save_character_row,
}
use ai_saga.Turn.Endings.{handle_death_ending}
use ai_saga.Turn.Prompt.{compose}

unfoldable pub location_json : Option Text → Json
location_json none = null
location_json (some t) = str t

-- The settled changes as they are stored.
unfoldable pub changes_json : StateChanges → Json
unfolding location_json
changes_json c = obj (
    field (text "hp_change") (num c.hp_change) (
      field (text "experience_gained") (num c.experience_gained) (
        field (text "items_gained") (arr (texts c.items_gained)) (
          field (text "items_lost") (arr (texts c.items_lost)) (
            field (text "location") (location_json c.location) (
              field (text "npcs_met") (arr (texts c.npcs_met))
                (field (text "discoveries") (arr (texts c.discoveries)) end)))))))

unfoldable pub persisted_fields : Fields → Json → StateChanges → Json → Json → Fields
unfolding changes_json
persisted_fields fs narrative changes applied first =
    let told =
      set_field (text "dice_applied") applied (set_field (text "narrative") narrative fs) in
    let framed =
      if truthy first
      then set_field (text "before_narrative") first told
      else pop_field (text "before_narrative") told in
    set_field (text "state_changes") (changes_json changes) framed

unfoldable pub build_persisted_parsed_response :
    Json → Json → StateChanges → Json → Json → Result Json
unfolding persisted_fields
build_persisted_parsed_response (obj fs) narrative changes applied first =
    ok (obj (persisted_fields fs narrative changes applied first))
build_persisted_parsed_response _ narrative changes applied first = raise type_error

-- `if state_changes.location: session = session.update_location(...)`
unfoldable pub move_session : Option Text → GameSession → GameSession
move_session none s = s
move_session (some []) s = s
move_session (some (c ∷ cs)) s = update_location (c ∷ cs) s

-- What the narrator's answer leaves to be told to the player.
pub record Told : Type 0 where
  pub session : GameSession
  pub narrative : Json
  pub options : List ActionOption
  pub persisted : Option Json
  pub applied : Bool
  pub first : Json

-- After a parsed answer the game goes on, or the character has died and the game has ended.
pub data Outcome : Type 0 where
  alive : Told → Outcome
  dead : GameSession → Response → Outcome

module _ (svc : Services) where
  -- The check that the kind of the action calls for.
  unfoldable pub roll_for : ActionType → CharacterEntity → Scenario → Act svc (Option DiceResult)
  roll_for kind c scenario w =
      let (d, g) =
        perform_check svc.random c.stats.level scenario.difficulty (to_dice_check_type kind)
          w.gen in
      if requires_dice kind then (ok (some d), record w { gen = g }) else (ok none, w)

  -- The character row is read again, changed and saved, where there is something to change.
  unfoldable pub update_character_row : StateChanges → ℕ → Act svc (Unit {0})
  update_character_row changes id w =
      if touches_character changes
      then elim (find_character id w.db.characters) [
        | none ↦ (ok tt, w)
        | some c ↦ (do d ← lift (update_character changes c); save_character_row svc d) w
      ]
      else (ok tt, w)

  -- The death check on the row as it is now.
  unfoldable pub check_death : Told → ℕ → Option CharacterEntity → Act svc Outcome
  check_death told user_id none = pure (alive told)
  check_death told user_id (some c) =
      if Narrator.should_end_game_by_death c
      then (do
        now ← read_clock svc
        let done = complete now EndingType.defeat told.session
        save_session_row svc done
        response ← handle_death_ending svc done c told.narrative user_id
        pure (dead done (ending response)))
      else pure (alive told)

  -- The branch for an answer that parses.
  unfoldable pub follow_parsed :
      GameSession → ℕ → Bool → Option DiceResult → Json → Text → Act svc Outcome
  follow_parsed session user_id should_apply dice parsed content = do
    narrative ← lift (Narrator.extract_narrative_from_parsed parsed content)
    raw ← lift (Narrator.extract_options_from_parsed parsed)
    options ← lift (normalize_action_options svc.python raw)
    applied ← lift (if should_apply then Narrator.extract_dice_applied parsed else ok (bool false))
    asked ← lift (Narrator.extract_state_changes svc.python parsed)
    first ←
        lift
          (if truthy applied then Narrator.extract_before_narrative_from_parsed parsed else ok null)
    let changes = settle_changes should_apply dice (truthy applied) asked
    persisted ← lift (build_persisted_parsed_response parsed narrative changes applied first)
    now ← read_clock svc
    let moved = move_session changes.location (update_game_state now changes session)
    update_character_row changes moved.character_id
    character ← gets (λ db. find_character moved.character_id db.characters)
    check_death
        (record {
          session = moved;
          narrative = narrative;
          options = options;
          persisted = some persisted;
          applied = truthy applied;
          first = first;
        })
        user_id character

  -- The branch for an answer that does not.
  unfoldable pub follow_text : GameSession → Text → Act svc Outcome
  follow_text session content = do
    options ← lift (
        normalize_action_options svc.python (arr (texts (Narrator.extract_action_options content))))
    pure (
        alive (record {
          session = session;
          narrative = str content;
          options = options;
          persisted = none;
          applied = false;
          first = null;
        }))

  unfoldable pub follow :
      GameSession → ℕ → Bool → Option DiceResult → Option Json → Text → Act svc Outcome
  follow session user_id should_apply dice none content = follow_text session content
  follow session user_id should_apply dice (some parsed) content =
      if truthy parsed
      then follow_parsed session user_id should_apply dice parsed content
      else follow_text session content

  -- The answer is stored as a message and as a memory, and the response is built.
  unfoldable pub tell : LlmResponse → Option DiceResult → Told → Act svc (GameSession × Response)
  tell answer dice told = do
    message ←
        create_message svc told.session.id MessageRole.assistant answer.content told.persisted
          answer.total_tokens
    let remembered = build_assistant_search_text svc.python answer.content told.persisted
    embedding ← generate_embedding svc remembered
    create_memory svc message MemoryType.assistant_narrative remembered told.persisted embedding
    narrative ← lift (as_text told.narrative)
    first ← lift (as_optional_text told.first)
    pure (
      told.session,
      action (record {
        message_id = message.id;
        content = message.content;
        parsed_response = message.parsed_response;
        created_at = message.created_at;
        narrative = narrative;
        options = told.options;
        turn_count = told.session.turn_count;
        max_turns = told.session.max_turns;
        dice_result = if told.applied then dice else none;
        before_roll_narrative = first;
      }),
    )

  unfoldable pub finish :
      LlmResponse → Option DiceResult → Outcome → Act svc (GameSession × Response)
  finish answer dice (alive told) = tell answer dice told
  finish answer dice (dead session response) = pure (session, response)

  unfoldable pub handle_normal_turn :
      GameSession
      → ℕ
      → Text
      → Option Text
      → List GameMessage
      → List GameMemory
      → Act svc (GameSession × Response)
  handle_normal_turn session user_id player_action hint history recalled = do
    let state = from_dict session.game_state
    found ← gets (λ db. find_scenario session.scenario_id db.scenarios)
    scenario ← lift (or_raise found scenario_not_found)
    row ← gets (λ db. find_character session.character_id db.characters)
    character ← lift (or_raise row character_not_found)
    let kind = resolve_action_type svc.python player_action hint
    dice ← roll_for kind character scenario
    answer ← generate_response svc (
        compose svc.python scenario character session.current_location state player_action history
          recalled dice)
    outcome ←
        follow session user_id (requires_dice kind) dice
          (Narrator.parse_llm_response svc.python answer.content) answer.content
    finish answer dice outcome

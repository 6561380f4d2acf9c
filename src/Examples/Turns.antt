-- ===== src/Examples/Turns.antt =====
-- A turn played, replayed and refused in the small world.
use ai_saga.Common.{
  ℕ, ◌≡◌, refl, true, false, some, text, ok, raise, conflict, session_not_owned, arith,
}
use ai_saga.Store.Monad.{World, in_transaction}
use ai_saga.Store.Services.{Response, CacheEntry}
use ai_saga.Turn.Execute.{
  ProcessActionInput, ProcessActionResult, validate_session, cached, cache_response, record_action,
  play, run_turn, take_turn, execute,
}
use ai_saga.Turn.Normal.{
  build_persisted_parsed_response, move_session, roll_for, update_character_row, check_death,
  follow_parsed, follow, tell, finish, handle_normal_turn,
}
use ai_saga.Turn.Effects.{
  generate_embedding, generate_response, create_message, create_memory, save_session_row,
  save_character_row,
}
use ai_saga.Turn.Action.{
  combat_keywords, social_keywords, skill_keywords, rest_keywords, observation_keywords,
  preparation_keywords, exploration_keywords, classify, resolve_action_type, normalize_options,
  normalize_action_options,
}
use ai_saga.Turn.Changes.{settle_changes, touches_character, update_character}
use ai_saga.Narrator.{
  should_end_game, should_end_game_by_death, find_fenced, parse_llm_response, extract_state_changes,
  extract_narrative_from_parsed, extract_options_from_parsed,
}
use ai_saga.Store.Tables.{
  find_session, find_character, overwrite_character, save_character, find_scenario,
}
use ai_saga.Session.{GameSession, advance_turn, update_game_state}
use ai_saga.Values.{requires_dice}
use ai_saga.Json.{
  truthy, find, get, set_field, pop_field, as_optional_text, as_texts, texts, iterate,
}
use ai_saga.Strings.{strip, join}
use ai_saga.Character.{update_stats, add_to_inventory, is_alive}
use ai_saga.MemoryText.{build_message_memory_text}
use ai_saga.Turn.Steps
use ai_saga.Turn.Plays
use ai_saga.Turn.Atomic
use ai_saga.Turn.Replay
use ai_saga.Turn.Refusals
use ai_saga.Examples.Setup.{services, world, input, session}

played :
    (response : Response) × (w' : World ℕ CacheEntry) × (run_turn services 7 input world
      ≡ (ok response, w'))
unfolding validate_session cached cache_response record_action play run_turn take_turn execute
    build_persisted_parsed_response move_session roll_for update_character_row check_death
    follow_parsed follow tell finish handle_normal_turn generate_embedding generate_response
    create_message create_memory save_session_row save_character_row combat_keywords social_keywords
    skill_keywords rest_keywords observation_keywords preparation_keywords exploration_keywords
    classify resolve_action_type normalize_options normalize_action_options settle_changes
    touches_character update_character should_end_game should_end_game_by_death find_fenced
    parse_llm_response extract_state_changes extract_narrative_from_parsed
    extract_options_from_parsed find_session find_character overwrite_character save_character
    find_scenario advance_turn update_game_state requires_dice truthy find get set_field pop_field
    as_optional_text as_texts texts iterate strip join update_stats add_to_inventory is_alive
    build_message_memory_text
played = (_, _, refl)

run_turn-Moves_example : Steps.Moves services input 7 played.0 world played.1
run_turn-Moves_example = Steps.run_turn-Moves services 7 input world played.1 played.0 played.2

session_found : find_session 1 world.db.sessions ≡ some session
unfolding find_session
session_found = refl

Plays-Advances_example :
    (r : GameSession) × (find_session 1 played.1.db.sessions ≡ some r)
    × Plays.Advances services session 1 r
Plays-Advances_example =
    Plays.Plays-Advances services 7 1 world session session_found 1 played.1
      (Plays.turn Plays.start input played.0 played.1 refl played.2)

execute-Leaves_example :
    Atomic.Leaves services 7 input world
      (in_transaction (execute services 7 input) world).0
      (in_transaction (execute services 7 input) world).1
execute-Leaves_example = Atomic.execute-Leaves services 7 input world

answered :
    (r : ProcessActionResult) × (w' : World ℕ CacheEntry) × (execute services 7 input world
      ≡ (ok r, w'))
    × (r.is_cached ≡ false)
unfolding validate_session cached cache_response record_action play run_turn take_turn execute
    build_persisted_parsed_response move_session roll_for update_character_row check_death
    follow_parsed follow tell finish handle_normal_turn generate_embedding generate_response
    create_message create_memory save_session_row save_character_row combat_keywords social_keywords
    skill_keywords rest_keywords observation_keywords preparation_keywords exploration_keywords
    classify resolve_action_type normalize_options normalize_action_options settle_changes
    touches_character update_character should_end_game should_end_game_by_death find_fenced
    parse_llm_response extract_state_changes extract_narrative_from_parsed
    extract_options_from_parsed find_session find_character overwrite_character save_character
    find_scenario advance_turn update_game_state requires_dice truthy find get set_field pop_field
    as_optional_text as_texts texts iterate strip join update_stats add_to_inventory is_alive
    build_message_memory_text
answered = (_, _, refl, refl)

-- The same action by another user, with another type.
abbrev again : ProcessActionInput
again = record input { action_type = some (text "combat") }

execute_replays_example :
    execute services 8 again answered.1
    ≡ (ok (record { response = answered.0.response; is_cached = true }), answered.1)
execute_replays_example =
    Replay.execute_replays services 7 8 input again world answered.1 answered.0 answered.2
      answered.3 refl refl refl

-- Another action under the same key.
abbrev other : ProcessActionInput
other = record input { action = text "rest" }

execute_conflicts_example : execute services 7 other answered.1 ≡ (raise conflict, answered.1)
execute_conflicts_example =
    Replay.execute_conflicts services 7 7 input other world answered.1 answered.0 answered.2
      answered.3 refl refl (λ e. ground arith)

foreign_request :
    Refusals.Refused 8 (find_session input.session_id world.db.sessions) session_not_owned
unfolding find_session
foreign_request = Refusals.foreign session (ground arith)

run_turn-Refused_example : run_turn services 8 input world ≡ (raise session_not_owned, world)
run_turn-Refused_example =
    Refusals.run_turn-Refused services 8 input world session_not_owned foreign_request

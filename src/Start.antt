-- ===== src/Start.antt =====
-- Starting a game: app/game/application/use_cases/start_game.py, for a use case that has no image
-- service.
pub mod Opens
use ai_saga.Common.{
  ℕ, zero, suc, Bool, true, false, not, Option, none, some, List, [], ◌∷◌, if◌then◌else◌, eqb, Text,
  Result, ok, raise, raise_if, character_not_owned, scenario_inactive, character_elsewhere,
  already_active,
}
use ai_saga.Values.{MessageRole, SessionStatus}
use ai_saga.Json.{Json, truthy}
use ai_saga.Entities.{Scenario, is_playable}
use ai_saga.Session.{GameSession}
use ai_saga.Character.{CharacterEntity}
use ai_saga.Narrator.{parse_llm_response}
use ai_saga.Store.Tables.{find_character, find_scenario, find_active}
use ai_saga.Store.Monad.{◌>>=◌, ◌>>◌, pure, lift, gets, commit}
use ai_saga.Store.Services.{Services}
use ai_saga.Turn.Prompt.{compose_opening}
use ai_saga.Turn.Effects.{
  Act, read_clock, draw_id, generate_response, create_message, save_session_row,
}

pub record StartGameInput : Type 0 where
  pub character_id : ℕ
  pub scenario_id : ℕ
  pub max_turns : Option ℕ

unfoldable pub owned_character : ℕ → Option CharacterEntity → Result CharacterEntity
owned_character user_id none = raise character_not_owned
owned_character user_id (some c) =
    if not (eqb c.user_id user_id) then raise character_not_owned else ok c

unfoldable pub playable_scenario : Option Scenario → Result Scenario
unfolding is_playable
playable_scenario none = raise scenario_inactive
playable_scenario (some s) = if not (is_playable s) then raise scenario_inactive else ok s

-- Whether there is a session.
abbrev pub is_some : Option GameSession → Bool
is_some none = false
is_some (some s) = true

-- `input_data.max_turns or settings.game_max_turns`
unfoldable pub chosen_turns : Option ℕ → ℕ → ℕ
chosen_turns none default = default
chosen_turns (some zero) default = default
chosen_turns (some (suc n)) default = suc n

-- `parsed if parsed else None`
unfoldable pub truthy_or_none : Option Json → Option Json
truthy_or_none none = none
truthy_or_none (some parsed) = if truthy parsed then some parsed else none

-- The session entity of step 5.
unfoldable pub new_session : ℕ → ℕ → ℕ → CharacterEntity → Scenario → ℕ → GameSession
new_session id now user_id character scenario max_turns = record {
  id = id;
  user_id = user_id;
  character_id = character.id;
  scenario_id = scenario.id;
  current_location = scenario.initial_location;
  game_state = [];
  status = SessionStatus.active;
  turn_count = 0;
  max_turns = max_turns;
  ending_type = none;
  started_at = now;
  ended_at = none;
  last_activity_at = now;
}

module _ (svc : Services) where
  unfoldable pub generate_initial_narrative :
      GameSession → CharacterEntity → Scenario → Act svc (Unit {0})
  generate_initial_narrative session character scenario = do
    response ←
        generate_response svc
          (compose_opening svc.python scenario character session.current_location)
    create_message svc session.id MessageRole.assistant response.content
        (truthy_or_none (parse_llm_response svc.python response.content)) response.total_tokens
    pure tt

  -- The checks of steps 1 to 3.
  unfoldable pub check_start : ℕ → StartGameInput → Act svc (CharacterEntity × Scenario)
  check_start user_id input = do
    row ← gets (λ db. find_character input.character_id db.characters)
    character ← lift (owned_character user_id row)
    found ← gets (λ db. find_scenario input.scenario_id db.scenarios)
    scenario ← lift (playable_scenario found)
    lift (raise_if (not (eqb character.scenario_id scenario.id)) character_elsewhere)
    existing ← gets (λ db. find_active character.id db.sessions)
    lift (raise_if (is_some existing) already_active)
    pure (character, scenario)

  -- The session that is returned carries all that the response reports.
  unfoldable pub start_game : ℕ → StartGameInput → Act svc GameSession
  start_game user_id input = do
    (character, scenario) ← check_start user_id input
    now ← read_clock svc
    id ← draw_id svc
    let session =
        new_session id now user_id character scenario
          (chosen_turns input.max_turns svc.game_max_turns)
    save_session_row svc session
    generate_initial_narrative session character scenario
    commit
    pure session

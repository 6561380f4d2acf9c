-- ===== src/GenerateEnding.antt =====
-- Ending a game outside a turn: app/game/application/use_cases/generate_ending.py. Only the session
-- is looked at, not whose it is.
pub mod Completes
use ai_saga.Common.{
  ℕ, not, Option, none, some, [], map, if◌then◌else◌, Text, Result, ok, raise, List,
  session_not_found, session_not_active,
}
use ai_saga.Values.{MessageRole, ScenarioDifficulty, EndingType}
use ai_saga.Entities.{GameMessage}
use ai_saga.Session.{GameSession, is_active, complete}
use ai_saga.Narrator.{parse_ending_type, extract_narrative_from_ending}
use ai_saga.Progression.{UserProgressionResult, calculate_game_xp, award_game_experience}
use ai_saga.Store.Tables.{find_session}
use ai_saga.Store.Monad.{◌>>=◌, ◌>>◌, pure, lift, gets, modify, attempt}
use ai_saga.Store.Services.{Services, EndingResponse}
use ai_saga.Turn.Effects.{Act, read_clock, generate_response, create_message, save_session_row}
use ai_saga.Turn.Endings.{role_value, ending_prompt, ending_json, ending_response}

-- What the first steps ask of a session.
unfoldable pub running : Option GameSession → Result GameSession
unfolding is_active
running none = raise session_not_found
running (some s) = if is_active s then ok s else raise session_not_active

module _ (svc : Services) where
  -- The body of the `try`, with the experience of a normal difficulty.
  unfoldable pub award_normal :
      EndingType → GameSession → ℕ → Act svc (ℕ × Option UserProgressionResult)
  award_normal e session user_id = do
    let xp = calculate_game_xp e session.turn_count ScenarioDifficulty.normal
    users ← gets (λ db. db.users)
    (rows, told) ← lift (award_game_experience user_id xp users)
    modify (λ db. record db { users = rows })
    pure (xp, some told)

  unfoldable pub try_award_normal :
      EndingType → GameSession → ℕ → Act svc (ℕ × Option UserProgressionResult)
  unfolding award_normal
  try_award_normal e session user_id =
      if svc.tracks_progress
      then attempt (award_normal e session user_id) (0, none)
      else pure (0, none)

  -- `_generate_ending_narrative`
  unfoldable pub generate_ending_narrative :
      GameSession → List GameMessage → ℕ → Act svc EndingResponse
  generate_ending_narrative session recent user_id = do
    answer ← generate_response svc (record {
      system_prompt = ending_prompt session.current_location;
      messages = map (λ (m : GameMessage). (role_value m.role, m.content)) recent;
    })
    let e = parse_ending_type svc.python answer.content
    let narrative = extract_narrative_from_ending answer.content
    now ← read_clock svc
    let done = complete now e session
    save_session_row svc done
    create_message svc session.id MessageRole.assistant narrative (some (ending_json e))
        answer.total_tokens
    gained ← try_award_normal e done user_id
    pure (ending_response done e narrative [] [] gained)

  unfoldable pub generate_ending : ℕ → ℕ → Act svc EndingResponse
  generate_ending user_id session_id = do
    found ← gets (λ db. find_session session_id db.sessions)
    session ← lift (running found)
    recent ← gets (λ db. svc.recent_messages db.messages session.id 10)
    generate_ending_narrative session recent user_id

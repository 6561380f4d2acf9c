-- ===== src/Turn/Endings.antt =====
-- How a game ends within a turn: `_handle_ending` on the last turn and `_handle_death_ending`, with
-- the award of experience that they share.
use ai_saga.Common.{
  ℕ, ◌-◌, false, Option, none, some, List, [], ◌∷◌, ◌++◌, map, if◌then◌else◌, Text, text, length,
  drop,
}
use ai_saga.Strings.{join}
use ai_saga.Values.{EndingType, MessageRole, ScenarioDifficulty, ending_value}
use ai_saga.Json.{Json, str, obj, field, end}
use ai_saga.Entities.{GameMessage, Scenario}
use ai_saga.Session.{GameSession, complete}
use ai_saga.Character.{CharacterEntity}
use ai_saga.Narrator.{parse_ending_type, extract_narrative_from_ending}
use ai_saga.Progression.{UserProgressionResult, calculate_game_xp, award_game_experience}
use ai_saga.Python.{display}
use ai_saga.Store.Tables.{find_character, find_scenario}
use ai_saga.Store.Monad.{◌>>=◌, ◌>>◌, pure, lift, gets, modify, attempt}
use ai_saga.Store.Services.{Services, EndingResponse}
use ai_saga.Turn.Effects.{Act, read_clock, generate_response, create_message}

abbrev pub role_value : MessageRole → Text
role_value MessageRole.user = text "user"
role_value MessageRole.assistant = text "assistant"
role_value MessageRole.system = text "system"

-- `xs[-n:]`
abbrev pub last_of {ℓ} : {A : Type ℓ} → ℕ → List A → List A
last_of n xs = drop (length xs - n) xs

unfoldable pub ending_prompt : Text → Text
ending_prompt location = join (10 ∷ []) (
    text "당신은 게임 마스터입니다. 이 게임의 마지막 턴입니다."
    ∷ (text "현재 위치: " ++ location)
    ∷ []
    ∷ text "지시사항:"
    ∷ text "1. 지금까지의 플레이어 행동을 바탕으로 적절한 엔딩을 생성해주세요."
    ∷ text "2. 엔딩 유형을 결정하세요: victory, defeat, 또는 neutral"
    ∷ text "3. 감동적이고 기억에 남는 엔딩 내러티브를 작성해주세요."
    ∷ []
    ∷ text "응답 형식:"
    ∷ text "[엔딩 유형]: victory/defeat/neutral"
    ∷ text "[엔딩 내러티브]: (상세한 엔딩 스토리)"
    ∷ []
    ∷ [])

-- `scenario.difficulty if scenario else NORMAL`
unfoldable pub difficulty_of : Option Scenario → ScenarioDifficulty
difficulty_of none = ScenarioDifficulty.normal
difficulty_of (some s) = s.difficulty

unfoldable pub scenario_name_of : Option Scenario → Text
scenario_name_of none = []
scenario_name_of (some s) = s.name

unfoldable pub character_name_of : Option CharacterEntity → Text
character_name_of none = []
character_name_of (some c) = c.name

-- `{"ending_type": value}`
unfoldable pub ending_json : EndingType → Json
ending_json e = obj (field (text "ending_type") (str (ending_value e)) end)

-- The response's fields on progress; without a result they have their defaults.
unfoldable pub ending_response :
    GameSession
    → EndingType
    → Text
    → Text
    → Text
    → ℕ × Option UserProgressionResult
    → EndingResponse
ending_response session e narrative character_name scenario_name (xp, progression) = record {
  session_id = session.id;
  ending_type = e;
  narrative = narrative;
  total_turns = session.turn_count;
  character_name = character_name;
  scenario_name = scenario_name;
  xp_gained = xp;
  new_game_level = elim progression [ none ↦ 1 | some p ↦ p.game_level ];
  leveled_up = elim progression [ none ↦ false | some p ↦ p.leveled_up ];
  levels_gained = elim progression [ none ↦ 0 | some p ↦ p.levels_gained ];
}

module _ (svc : Services) where
  -- The body of the `try`.
  unfoldable pub award_experience :
      EndingType → GameSession → ℕ → Act svc (ℕ × Option UserProgressionResult)
  award_experience e session user_id = do
    scenario ← gets (λ db. find_scenario session.scenario_id db.scenarios)
    let xp = calculate_game_xp e session.turn_count (difficulty_of scenario)
    users ← gets (λ db. db.users)
    (rows, told) ← lift (award_game_experience user_id xp users)
    modify (λ db. record db { users = rows })
    pure (xp, some told)

  -- The award, or nothing where it raises or no progression service is there.
  unfoldable pub try_award :
      EndingType → GameSession → ℕ → Act svc (ℕ × Option UserProgressionResult)
  unfolding award_experience
  try_award e session user_id =
      if svc.tracks_progress
      then attempt (award_experience e session user_id) (0, none)
      else pure (0, none)

  unfoldable pub handle_ending :
      GameSession → List GameMessage → ℕ → Act svc (GameSession × EndingResponse)
  handle_ending session recent user_id = do
    answer ← generate_response svc (record {
      system_prompt = ending_prompt session.current_location;
      messages = map (λ (m : GameMessage). (role_value m.role, m.content)) (last_of 10 recent);
    })
    let e = parse_ending_type svc.python answer.content
    let narrative = extract_narrative_from_ending answer.content
    now ← read_clock svc
    let done = complete now e session
    character ← gets (λ db. find_character done.character_id db.characters)
    create_message svc done.id MessageRole.assistant narrative (some (ending_json e))
        answer.total_tokens
    gained ← try_award e done user_id
    scenario ← gets (λ db. find_scenario done.scenario_id db.scenarios)
    pure (
      done,
      ending_response done e narrative (character_name_of character) (scenario_name_of scenario)
          gained,
    )

  unfoldable pub death_narrative : Json → CharacterEntity → Text
  death_narrative narrative character =
      display svc.python narrative
      ++ (10 ∷ 10 ∷ [])
      ++ text "💀 "
      ++ character.name
      ++ text "의 HP가 0이 되어 사망했습니다. "
      ++ text "게임 오버."

  unfoldable pub handle_death_ending :
      GameSession → CharacterEntity → Json → ℕ → Act svc EndingResponse
  handle_death_ending session character narrative user_id = do
    let told = death_narrative narrative character
    create_message svc session.id MessageRole.assistant told (some (ending_json EndingType.defeat))
        none
    gained ← try_award EndingType.defeat session user_id
    scenario ← gets (λ db. find_scenario session.scenario_id db.scenarios)
    pure (
        ending_response session EndingType.defeat told character.name (scenario_name_of scenario)
          gained)

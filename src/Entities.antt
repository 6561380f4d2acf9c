-- ===== src/Entities.antt =====
-- Messages, memories and scenarios: app/game/domain/entities/game_message.py, game_memory.py and
-- scenario.py. Identifiers and times are numbers; an embedding, which the code only hands on, is one
-- too.
use ai_saga.Common.{
  ℕ, Bool, true, false, Option, List, ◌++◌, ltb, if◌then◌else◌, Text, text, length, take,
}
use ai_saga.Values.{MessageRole, ScenarioGenre, ScenarioDifficulty}
use ai_saga.Json.{Json}

pub record GameMessage : Type 0 where
  pub id : ℕ
  pub session_id : ℕ
  pub role : MessageRole
  pub content : Text
  pub parsed_response : Option Json
  pub token_count : Option ℕ
  pub image_url : Option Text
  pub created_at : ℕ

-- `MessageRole.is_player` and `MessageRole.is_ai`
unfoldable pub is_player : MessageRole → Bool
is_player MessageRole.user = true
is_player MessageRole.assistant = false
is_player MessageRole.system = false

unfoldable pub is_ai : MessageRole → Bool
is_ai MessageRole.assistant = true
is_ai MessageRole.user = false
is_ai MessageRole.system = false

unfoldable pub is_ai_response : GameMessage → Bool
is_ai_response m = is_ai m.role

-- The first hundred characters, and dots if there are more.
unfoldable pub summary : GameMessage → Text
summary m = if ltb 100 (length m.content) then take 100 m.content ++ text "..." else m.content

pub data MemoryType : Type 0 where
  user_action assistant_narrative : MemoryType

pub record GameMemory : Type 0 where
  pub id : ℕ
  pub session_id : ℕ
  pub source_message_id : ℕ
  pub role : MessageRole
  pub memory_type : MemoryType
  pub content : Text
  pub parsed_response : Option Json
  pub embedding : ℕ
  pub created_at : ℕ

pub record Scenario : Type 0 where
  pub id : ℕ
  pub name : Text
  pub world_setting : Text
  pub initial_location : Text
  pub genre : ScenarioGenre
  pub difficulty : ScenarioDifficulty
  pub max_turns : ℕ
  pub tags : List Text
  pub is_active : Bool

unfoldable pub deactivate_scenario : Scenario → Scenario
deactivate_scenario s = record s { is_active = false }

unfoldable pub activate_scenario : Scenario → Scenario
activate_scenario s = record s { is_active = true }

unfoldable pub is_playable : Scenario → Bool
is_playable s = s.is_active

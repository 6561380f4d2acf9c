-- ===== src/Turn/Prompt.antt =====
-- The prompt of a turn: app/llm/prompts/game_master.py and
-- app/game/application/services/turn_prompt_composer.py, with the texts of a character's profile and
-- of a dice result that go into it.
mod Template
use ai_saga.Common.{ℕ, Option, none, some, List, [], ◌∷◌, ◌++◌, map, if◌then◌else◌, Text, text}
use ai_saga.Common.Int.{pos}
use ai_saga.Strings.{strip, join}
use ai_saga.Json.{num}
use ai_saga.Entities.{GameMessage, GameMemory, Scenario, is_ai}
use ai_saga.GameState.{GameState, append_missing}
use ai_saga.Character.{CharacterProfile, CharacterEntity}
use ai_saga.Dice.{DiceResult, total, is_critical, is_fumble, is_success}
use ai_saga.MemoryText.{build_assistant_search_text}
use ai_saga.Python.{Python, display}
use ai_saga.Store.Services.{TurnPrompt}
use ai_saga.Turn.Endings.{role_value, last_of}
use ai_saga.Turn.Prompt.Template.{role_rules, answer_format, narrative_rules}

-- Lines with their breaks.
abbrev lines_of : List Text → Text
lines_of = join (10 ∷ [])

abbrev commas : List Text → Text
commas = join (text ", ")

module _ (py : Python) where
  -- `str` of a number
  abbrev number : ℕ → Text
  number n = display py (num (pos n))

  unfoldable pub goal_part : Option Text → List Text
  goal_part none = []
  goal_part (some []) = []
  goal_part (some (c ∷ cs)) = (text "목표: " ++ (c ∷ cs) ++ text ".") ∷ []

  unfoldable pub build_summary : Text → CharacterProfile → Text
  unfolding goal_part join
  build_summary name profile = lines_of (
      map (λ part. text "- " ++ part)
        ((text "이름: " ++ name ++ text ".")
          ∷ (text "나이: " ++ number profile.age ++ text "세.")
          ∷ (text "성별: " ++ profile.gender ++ text ".")
          ∷ (text "외형: " ++ profile.appearance ++ text ".")
          ∷ goal_part profile.goal))

  unfoldable pub prompt_profile : CharacterEntity → Text
  unfolding build_summary
  prompt_profile c = elim c.profile [ none ↦ [] | some profile ↦ build_summary c.name profile ]

  unfoldable pub display_text : DiceResult → Text
  unfolding total is_critical is_fumble is_success
  display_text r =
      text "🎲 1d20+"
      ++ number r.modifier
      ++ text " = "
      ++ number (total r)
      ++ text " vs DC "
      ++ number r.dc
      ++ text " → "
      ++ (if is_critical r
          then text "대성공!"
          else if is_fumble r
          then text "대실패!"
          else if is_success r
          then text "성공!"
          else text "실패...")

  -- The section on the dice, which is empty where none are rolled.
  unfoldable pub build_dice_result_section : Option DiceResult → Text
  unfolding display_text
  build_dice_result_section none = []
  build_dice_result_section (some r) = display_text r

  unfoldable pub dice_result_block : Text → Text
  dice_result_block [] = []
  dice_result_block (c ∷ cs) =
      (10 ∷ []) ++ text "## 주사위 판정 결과" ++ (10 ∷ []) ++ (c ∷ cs) ++ (10 ∷ [])

  unfoldable pub character_profile_section : Text → Text → Text
  character_profile_section name [] =
      lines_of ((text "- 이름: " ++ name) ∷ text "- 추가 설정: 아직 공개된 정보 없음." ∷ [])
  character_profile_section name (c ∷ cs) = c ∷ cs

  unfoldable pub build_system_prompt : Text → Text → Text → Text → Text → Text → Text → Text
  unfolding dice_result_block character_profile_section strip join
  build_system_prompt scenario_name world_setting name description location state_section dice =
      lines_of (
        text "당신은 텍스트 기반 MUD 게임의 게임 마스터(Game Master)입니다."
        ∷ []
        ∷ text "## 시나리오"
        ∷ (text "- 시나리오 이름: " ++ scenario_name)
        ∷ (text "- 세계관: " ++ world_setting)
        ∷ []
        ∷ text "## 캐릭터 핵심 설정"
        ∷ character_profile_section name (strip description)
        ∷ []
        ∷ text "## 현재 게임 상태"
        ∷ (text "- 위치: " ++ location)
        ∷ state_section
        ∷ dice_result_block dice
        ∷ (role_rules ++ answer_format ++ narrative_rules))

  -- A line with a label, if there is something to list.
  unfoldable pub listed : Text → List Text → List Text
  unfolding join
  listed label [] = []
  listed label (t ∷ ts) = (label ++ commas (t ∷ ts)) ∷ []

  -- The inventory before the items of the state, each once.
  unfoldable pub inventory_items : List Text → List Text → List Text
  unfolding append_missing
  inventory_items [] items = items
  inventory_items (t ∷ ts) items = append_missing [] ((t ∷ ts) ++ items)

  unfoldable pub joined_or_none : List Text → Text
  unfolding join
  joined_or_none [] = text "- (아직 수집한 정보 없음)"
  joined_or_none (line ∷ lines) = lines_of (line ∷ lines)

  unfoldable pub format_game_state : List Text → GameState → Text
  unfolding listed inventory_items joined_or_none
  format_game_state inventory state = joined_or_none (
      listed (text "- 인벤토리: ") (inventory_items inventory state.items)
      ++ listed (text "- 방문한 장소: ") (last_of 5 state.visited_locations)
      ++ listed (text "- 만난 NPC: ") state.met_npcs
      ++ listed (text "- 발견한 것: ") state.discoveries)

  -- `build_message_memory_text` of a memory.
  unfoldable pub memory_text : GameMemory → Text
  unfolding build_assistant_search_text strip is_ai
  memory_text m =
      if is_ai m.role
      then build_assistant_search_text py m.content m.parsed_response
      else strip m.content

  unfoldable pub memory_sections : List GameMemory → List Text
  unfolding memory_text join
  memory_sections [] = []
  memory_sections (m ∷ ms) =
      []
      ∷ text "## 참고 기억"
      ∷ lines_of (map (λ memory. text "- " ++ memory_text memory) (m ∷ ms))
      ∷ []

  unfoldable pub build_turn_payload : Text → List GameMemory → Text
  unfolding memory_sections strip join
  build_turn_payload player_action recalled = strip (
      lines_of (
        text "## 현재 플레이어 행동"
        ∷ player_action
        ∷ (memory_sections recalled ++ [] ∷ text "현재 행동을 중심으로 JSON 형식의 게임 마스터 응답을 생성하세요." ∷ [])))

  unfoldable pub compose :
      Scenario
      → CharacterEntity
      → Text
      → GameState
      → Text
      → List GameMessage
      → List GameMemory
      → Option DiceResult
      → TurnPrompt
  unfolding build_system_prompt format_game_state build_turn_payload prompt_profile
      build_dice_result_section
  compose scenario c location state player_action history recalled dice = record {
    system_prompt =
        build_system_prompt scenario.name scenario.world_setting c.name (prompt_profile c) location
          (format_game_state c.inventory state) (build_dice_result_section dice);
    messages =
        map (λ (m : GameMessage). (role_value m.role, m.content)) history
        ++ (text "user", build_turn_payload player_action recalled) ∷ [];
  }

  -- The prompt of a game that starts, with no state and no dice.
  unfoldable pub compose_opening : Scenario → CharacterEntity → Text → TurnPrompt
  unfolding build_system_prompt prompt_profile
  compose_opening scenario c location = record {
    system_prompt =
        build_system_prompt scenario.name scenario.world_setting c.name (prompt_profile c) location
          [] [];
    messages =
        (
          text "user",
          text "게임을 시작합니다. 캐릭터의 목표와 외형이 "
              ++ text "자연스럽게 드러나도록 현재 상황을 묘사하고, "
              ++ text "첫 선택지 3개 중 최소 2개는 캐릭터 설정을 "
              ++ text "직접 반영해주세요.",
        )
        ∷ [];
  }

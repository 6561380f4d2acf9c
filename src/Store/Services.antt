-- ===== src/Store/Services.antt =====
-- The services that the use cases call and that live outside: the clock, identifiers, the language
-- model, the embedding model, the queries that the database ranks, and the cache's encoding.
use ai_saga.Common.{ℕ, Bool, false, ◌≡◌, Option, some, List, Text}
use ai_saga.Values.{EndingType}
use ai_saga.Json.{Json}
use ai_saga.Dice.{Random, DiceResult}
use ai_saga.Entities.{GameMessage, GameMemory}
use ai_saga.Turn.Action.{ActionOption}
use ai_saga.Python.{Python}
use ai_saga.Recall.{Floats, Candidate, Weights}

pub record LlmResponse : Type 0 where
  pub content : Text
  pub total_tokens : Option ℕ

pub record TurnPrompt : Type 0 where
  pub system_prompt : Text
  pub messages : List (Text × Text)

-- `GameActionResponse`, with the fields of its message.
pub record ActionResponse : Type 0 where
  pub message_id : ℕ
  pub content : Text
  pub parsed_response : Option Json
  pub created_at : ℕ
  pub narrative : Text
  pub options : List ActionOption
  pub turn_count : ℕ
  pub max_turns : ℕ
  pub dice_result : Option DiceResult
  pub before_roll_narrative : Option Text

-- `GameEndingResponse`
pub record EndingResponse : Type 0 where
  pub session_id : ℕ
  pub ending_type : EndingType
  pub narrative : Text
  pub total_turns : ℕ
  pub character_name : Text
  pub scenario_name : Text
  pub xp_gained : ℕ
  pub new_game_level : ℕ
  pub leveled_up : Bool
  pub levels_gained : ℕ

pub data Response : Type 0 where
  action : ActionResponse → Response
  ending : EndingResponse → Response

-- What `_cache_response` writes: the kind is the constructor of the response.
pub record CacheEntry : Type 0 where
  pub response : Response
  pub payload_hash : Option Text

pub record Services : Type 1 where
  pub python : Python
  pub random : Random
  -- `get_utc_datetime` and `get_uuid7` at the n-th call, and `str` of an identifier
  pub time : ℕ → ℕ
  pub uuid7 : ℕ → ℕ
  pub uuid_text : ℕ → Text
  -- the embedding and the language model at the n-th outside call; `none` for a call that raises
  pub embed : ℕ → Text → Option ℕ
  pub generate : ℕ → TurnPrompt → Option LlmResponse
  pub floats : Floats
  -- the last messages of a session, oldest first, and its nearest memories but one
  pub recent_messages : List GameMessage → ℕ → ℕ → List GameMessage
  pub similar_memories : List GameMemory → ℕ → ℕ → ℕ → ℕ → List (Candidate floats)
  -- `json.dumps` of a cache entry, and `json.loads` with the validation of what it holds
  -- the cache's texts, with a test for the empty one
  pub Stored : Type 0
  pub is_blank : Stored → Bool
  pub encode : CacheEntry → Stored
  pub decode : Stored → Option CacheEntry
  pub decode-encode : (e : CacheEntry) → decode (encode e) ≡ some e
  pub is_blank-encode : (e : CacheEntry) → is_blank (encode e) ≡ false
  -- the settings, and whether the use case has a progression service
  pub rag_recent_messages_limit : ℕ
  pub rag_similar_messages_limit : ℕ
  pub rag_weights : Weights floats
  pub game_max_turns : ℕ
  pub tracks_progress : Bool

-- ===== src/Turn/Effects.antt =====
-- The single calls that a turn makes: clock, identifiers, models, and rows written.
use ai_saga.Common.{
  ℕ, ◌+◌, Option, none, [], ◌∷◌, ◌++◌, Text, ok, raise, or_raise, service_error, validation_error,
  Result,
}
use ai_saga.Values.{MessageRole}
use ai_saga.Json.{Json}
use ai_saga.Entities.{GameMessage, GameMemory, MemoryType}
use ai_saga.Session.{GameSession}
use ai_saga.Character.{CharacterEntity}
use ai_saga.Store.Tables.{save_session, save_character}
use ai_saga.Store.Monad.{Action, ◌>>=◌, ◌>>◌, pure, lift, modify}
use ai_saga.Store.Services.{Services, LlmResponse, TurnPrompt}

-- `Field(min_length=1)` on a content.
unfoldable pub non_empty : Text → Result Text
non_empty [] = raise validation_error
non_empty (c ∷ cs) = ok (c ∷ cs)

module _ (svc : Services) where
  abbrev pub Act : Type 0 → Type 0
  Act = Action svc.random.Gen svc.Stored

  -- `get_utc_datetime()`
  unfoldable pub read_clock : Act ℕ
  read_clock w = (ok (svc.time w.clock), record w { clock = w.clock + 1 })

  -- `get_uuid7()`
  unfoldable pub draw_id : Act ℕ
  draw_id w = (ok (svc.uuid7 w.ids), record w { ids = w.ids + 1 })

  unfoldable pub generate_embedding : Text → Act ℕ
  generate_embedding content w =
      (or_raise (svc.embed w.calls content) service_error, record w { calls = w.calls + 1 })

  unfoldable pub generate_response : TurnPrompt → Act LlmResponse
  generate_response prompt w =
      (or_raise (svc.generate w.calls prompt) service_error, record w { calls = w.calls + 1 })

  -- A message with a fresh identifier and time, validated and written.
  unfoldable pub create_message : ℕ → MessageRole → Text → Option Json → Option ℕ → Act GameMessage
  unfolding read_clock draw_id non_empty
  create_message session_id role content parsed tokens = do
    id ← draw_id
    now ← read_clock
    checked ← lift (non_empty content)
    let message : GameMessage = record {
      id = id;
      session_id = session_id;
      role = role;
      content = checked;
      parsed_response = parsed;
      token_count = tokens;
      image_url = none;
      created_at = now;
    }
    modify (λ db. record db { messages = db.messages ++ message ∷ [] })
    pure message

  -- A memory of a message, validated and written.
  unfoldable pub create_memory : GameMessage → MemoryType → Text → Option Json → ℕ → Act GameMemory
  unfolding read_clock draw_id non_empty
  create_memory message kind content parsed embedding = do
    id ← draw_id
    now ← read_clock
    checked ← lift (non_empty content)
    let memory : GameMemory = record {
      id = id;
      session_id = message.session_id;
      source_message_id = message.id;
      role = message.role;
      memory_type = kind;
      content = checked;
      parsed_response = parsed;
      embedding = embedding;
      created_at = now;
    }
    modify (λ db. record db { memories = db.memories ++ memory ∷ [] })
    pure memory

  unfoldable pub save_session_row : GameSession → Act (Unit {0})
  save_session_row s = modify (λ db. record db { sessions = save_session s db.sessions })

  unfoldable pub save_character_row : CharacterEntity → Act (Unit {0})
  save_character_row c = modify (λ db. record db { characters = save_character c db.characters })

-- ===== src/Turn/Frames.antt =====
-- The calls of a turn leave the committed data and the cache alone, and hand the session on.
use ai_saga.Common.{ℕ, ◌≡◌, Option, some, List, Text, arith}
use ai_saga.Values.{EndingType, MessageRole, SessionStatus}
use ai_saga.Json.{Json}
use ai_saga.Entities.{GameMessage, MemoryType}
use ai_saga.Session.{GameSession, complete}
use ai_saga.Character.{CharacterEntity}
use ai_saga.Store.Services.{Services, TurnPrompt, EndingResponse}
use ai_saga.Turn.Effects.{
  read_clock, generate_embedding, generate_response, create_message, create_memory,
  save_session_row, save_character_row,
}
use ai_saga.Turn.Endings.{try_award, handle_ending, handle_death_ending, ending_response}
use ai_saga.Turn.Ensures.{Ensures, Anything}

module _ (svc : Services) where
  pub read_clock-Ensures : Ensures Anything (read_clock svc)
  unfolding read_clock
  read_clock-Ensures w = ground arith

  pub generate_embedding-Ensures : (t : Text) → Ensures Anything (generate_embedding svc t)
  unfolding generate_embedding
  generate_embedding-Ensures t w = ground arith

  pub generate_response-Ensures : (p : TurnPrompt) → Ensures Anything (generate_response svc p)
  unfolding generate_response
  generate_response-Ensures p w = ground arith

  pub create_message-Ensures :
      (s : ℕ) (role : MessageRole) (t : Text) (parsed : Option Json) (tokens : Option ℕ)
      → Ensures Anything (create_message svc s role t parsed tokens)
  unfolding create_message
  create_message-Ensures s role t parsed tokens w = ground arith

  pub create_memory-Ensures :
      (m : GameMessage) (kind : MemoryType) (t : Text) (parsed : Option Json) (e : ℕ)
      → Ensures Anything (create_memory svc m kind t parsed e)
  unfolding create_memory
  create_memory-Ensures m kind t parsed e w = ground arith

  pub try_award-Ensures :
      (e : EndingType) (s : GameSession) (u : ℕ) → Ensures Anything (try_award svc e s u)
  unfolding try_award
  try_award-Ensures e s u w = ground arith

  pub save_session_row-Ensures : (s : GameSession) → Ensures Anything (save_session_row svc s)
  unfolding save_session_row
  save_session_row-Ensures s w = ground arith

  pub save_character_row-Ensures :
      (c : CharacterEntity) → Ensures Anything (save_character_row svc c)
  unfolding save_character_row
  save_character_row-Ensures c w = ground arith

-- A session that has ended with `e`, as it was but for that.
pub record Ends (s t : GameSession) (e : EndingResponse) : Type 0 where
  pub id : t.id ≡ s.id
  pub turns : t.turn_count ≡ s.turn_count
  pub limit : t.max_turns ≡ s.max_turns
  pub done : t.status ≡ SessionStatus.completed
  pub typed : t.ending_type ≡ some e.ending_type
  pub reported : (e.session_id ≡ s.id) × (e.total_turns ≡ s.turn_count)

module _ (svc : Services) where
  pub handle_death_ending-Ensures :
      (s : GameSession) (c : CharacterEntity) (narrative : Json) (u : ℕ)
      → Ensures
          (λ (e : EndingResponse).
            (e.session_id ≡ s.id)
            × (e.total_turns ≡ s.turn_count)
            × (e.ending_type ≡ EndingType.defeat))
          (handle_death_ending svc s c narrative u)
  unfolding handle_death_ending ending_response
  handle_death_ending-Ensures s c narrative u w =
      grind (arith, create_message-Ensures svc, try_award-Ensures svc)

  pub handle_ending-Ensures :
      (s : GameSession) (recent : List GameMessage) (u : ℕ)
      → Ensures
          (λ (t : GameSession × EndingResponse). Ends s t.0 t.1)
          (handle_ending svc s recent u)
  unfolding handle_ending ending_response complete
  handle_ending-Ensures s recent u w = grind (
    arith,
    generate_response-Ensures svc,
    read_clock-Ensures svc,
    create_message-Ensures svc,
    try_award-Ensures svc,
  )

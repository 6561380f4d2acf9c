-- ===== src/Turn/Execute.antt =====
-- The use case as a whole: `ProcessActionUseCase.execute` with its idempotency cache, and
-- `_validate_session`. The cache keeps an entry until it is overwritten; the 600 seconds after which
-- Redis drops it are a later look that finds nothing.
use ai_saga.Common.{
  ℕ, ◌*◌, Bool, true, false, not, Option, none, some, List, [], ◌∷◌, ◌++◌, map, if◌then◌else◌, eqb,
  Text, text, text_eqb, lookup, insert, Result, ok, raise, or_raise, conflict, validation_error,
  session_not_found, session_not_owned, session_completed, session_not_active, max_turns_reached,
}
use Prim.Native.Nat.{max}
use ai_saga.Values.{MessageRole, SessionStatus}
use ai_saga.Entities.{GameMessage, GameMemory, MemoryType}
use ai_saga.Session.{GameSession, is_active, is_final_turn, advance_turn}
use ai_saga.Narrator.{should_end_game}
use ai_saga.Store.Tables.{find_session}
use ai_saga.Store.Monad.{◌>>=◌, ◌>>◌, pure, lift, gets, commit}
use ai_saga.Recall.{select_relevant_rag_messages}
use ai_saga.Store.Services.{Services, Response, CacheEntry, ending}
use ai_saga.Turn.Effects.{
  Act, read_clock, generate_embedding, create_message, create_memory, save_session_row,
}
use ai_saga.Turn.Endings.{handle_ending}
use ai_saga.Turn.Normal.{handle_normal_turn}

pub record ProcessActionInput : Type 0 where
  pub session_id : ℕ
  pub action : Text
  pub action_type : Option Text
  pub idempotency_key : Text

pub record ProcessActionResult : Type 0 where
  pub response : Response
  pub is_cached : Bool

abbrev pub completed_status : SessionStatus → Bool
completed_status SessionStatus.completed = true
completed_status SessionStatus.active = false
completed_status SessionStatus.paused = false
completed_status SessionStatus.ended = false

unfoldable pub validate_session : GameSession → ℕ → Result (Unit {0})
unfolding is_active is_final_turn
validate_session s user_id =
    if not (eqb s.user_id user_id)
    then raise session_not_owned
    else if completed_status s.status
    then raise session_completed
    else if not (is_active s)
    then raise session_not_active
    else if is_final_turn s
    then raise max_turns_reached
    else ok tt

-- A cached entry answers a request with the same payload; an entry with no digest answers any.
unfoldable pub replay : Text → CacheEntry → Result ProcessActionResult
replay digest entry = elim entry.payload_hash [
  | none ↦ ok (record { response = entry.response; is_cached = true })
  | some stored ↦
      if text_eqb stored digest
      then ok (record { response = entry.response; is_cached = true })
      else raise conflict
]

-- `[m for m in messages if m.id != id]`
unfoldable pub other_messages : ℕ → List GameMessage → List GameMessage
other_messages i [] = []
other_messages i (m ∷ ms) = let rest = other_messages i ms in if eqb m.id i then rest else m ∷ rest

module _ (svc : Services) where
  -- The action type is no part of the payload.
  unfoldable pub compute_action_payload_hash : Text → Option Text → Text
  compute_action_payload_hash action hint = svc.python.payload_digest action

  unfoldable pub cache_key : ProcessActionInput → Text
  cache_key input =
      text "game:idempotency:"
      ++ svc.uuid_text input.session_id
      ++ text ":"
      ++ input.idempotency_key

  -- An empty text in the cache counts as none.
  unfoldable pub cached : Text → Act svc (Option svc.Stored)
  cached key w = elim (lookup key w.cache) [
    | none ↦ (ok none, w)
    | some stored ↦ if svc.is_blank stored then (ok none, w) else (ok (some stored), w)
  ]

  unfoldable pub cache_response : Text → Response → Option Text → Act svc (Unit {0})
  cache_response key response digest w = (
    ok tt,
    record w {
      cache =
          insert key (svc.encode (record { response = response; payload_hash = digest })) w.cache;
    },
  )

  -- Steps 5 to 7: the player's message and memory, and what is recalled for the prompt.
  unfoldable pub record_action :
      GameSession → Text → Act svc (List GameMessage × List GameMessage × List GameMemory)
  record_action session player_action = do
    embedding ← generate_embedding svc player_action
    message ← create_message svc session.id MessageRole.user player_action none none
    memory ← create_memory svc message MemoryType.user_action player_action none embedding
    recent ←
        gets
          (λ db. svc.recent_messages db.messages session.id (max 1 svc.rag_recent_messages_limit))
    let limit = svc.rag_similar_messages_limit
    near ← gets (λ db.
        svc.similar_memories db.memories embedding session.id (max (limit * 3) limit) memory.id)
    pure (
      recent,
      other_messages message.id recent,
      map (λ c. c.memory)
          (select_relevant_rag_messages svc.floats svc.python near session.current_location limit
            svc.rag_weights),
    )

  -- Step 8: the last turn ends the game, any other is played.
  unfoldable pub play :
      GameSession
      → ℕ
      → ProcessActionInput
      → List GameMessage
      → List GameMessage
      → List GameMemory
      → Act svc (GameSession × Response)
  play session user_id input recent history recalled =
      if should_end_game session
      then (do (done, told) ← handle_ending svc session recent user_id; pure (done, ending told))
      else handle_normal_turn svc session user_id input.action input.action_type history recalled

  -- Steps 2 to 9: the turn itself, up to the saved session.
  unfoldable pub run_turn : ℕ → ProcessActionInput → Act svc Response
  run_turn user_id input = do
    found ← gets (λ db. find_session input.session_id db.sessions)
    session ← lift (or_raise found session_not_found)
    lift (validate_session session user_id)
    now ← read_clock svc
    advanced ← lift (advance_turn now session)
    (recent, history, recalled) ← record_action advanced input.action
    (played, response) ← play advanced user_id input recent history recalled
    save_session_row svc played
    pure response

  unfoldable pub take_turn : ℕ → ProcessActionInput → Act svc ProcessActionResult
  take_turn user_id input = do
    response ← run_turn user_id input
    commit
    cache_response (cache_key input) response
        (some (compute_action_payload_hash input.action input.action_type))
    pure (record { response = response; is_cached = false })

  -- Step 1 on a hit.
  unfoldable pub answer_cached : ProcessActionInput → svc.Stored → Result ProcessActionResult
  unfolding replay
  answer_cached input stored = elim (svc.decode stored) [
    | none ↦ raise validation_error
    | some entry ↦ replay (compute_action_payload_hash input.action input.action_type) entry
  ]

  unfoldable pub execute : ℕ → ProcessActionInput → Act svc ProcessActionResult
  execute user_id input = do
    hit ← cached (cache_key input)
    elim hit [ none ↦ take_turn user_id input | some stored ↦ lift (answer_cached input stored) ]

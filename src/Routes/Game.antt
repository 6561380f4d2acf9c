-- ===== src/Routes/Game.antt =====
-- The routes of app/game/presentation/routes/game_routes.py that change something, and those that
-- read one session.
use ai_saga.Common.{
  ℕ, ◌≡◌, Bool, true, false, not, ◌||◌, ◌&&◌, Option, none, some, [], ◌∷◌, ◌++◌, is_nil, contains,
  if◌then◌else◌, Text, text, text_eqb, insert, Result, Error, ok, raise, conflict, key_error,
}
use ai_saga.Python.{Python}
use ai_saga.Strings.{occurs}
use ai_saga.GameState.{StateDict}
use ai_saga.Character.{CharacterEntity}
use ai_saga.Program.{◌>>=◌, ◌>>◌, pure, lift}
use ai_saga.Store.Monad.{World, in_transaction}
use ai_saga.Store.Services.{Services}
use ai_saga.Turn.Effects.{Act}
use ai_saga.Turn.Execute.{ProcessActionResult, cached, execute}
use ai_saga.Start.{StartGameInput, start_game}
use ai_saga.Manage.{CreateCharacterInput, create_character, delete_session}
use ai_saga.SessionHistory.{
  SessionDetailResult, HistoryPage, HistoryServices, HistoryWorld, to_result,
}
use ai_saga.SessionHistory.Queries
use ai_saga.Illustration.Images.{ImageServices, Studio}
use ai_saga.Illustration.Requests
use ai_saga.Routes.{
  Reply, reply, refusal, Refusal, internal_error, Lock, locked, api_refusal, refuse_with, respond,
}

-- What is cached of a start.
pub record StartEntry : Type 0 where
  pub payload_hash : Text
  pub response : SessionDetailResult

-- The texts of such entries in the cache, the digest of a request's body, and the messages of
-- exceptions.
pub record Web (svc : Services) : Type 0 where
  pub encode_start : StartEntry → svc.Stored
  pub decode_start : svc.Stored → Option StartEntry
  pub start_digest : StartGameInput → Text
  pub said : Error → Text
  pub decode_start-encode : (e : StartEntry) → decode_start (encode_start e) ≡ some e
  pub is_blank-encode_start : (e : StartEntry) → svc.is_blank (encode_start e) ≡ false

abbrev is_none : Option ℕ → Bool
is_none none = true
is_none (some n) = false

-- A header that is there and not empty.
unfoldable pub given_key : Option Text → Option Text
given_key none = none
given_key (some []) = none
given_key (some (c ∷ cs)) = some (c ∷ cs)

-- What `submit_action` makes of a `ValueError`.
unfoldable pub action_refusal : Python → Text → Refusal
action_refusal py message =
    let m = py.lower message in
    if occurs (text "completed") m
    then (409, text "Session is already completed. Cannot process further actions.")
    else if occurs (text "not active") m || occurs (text "not in active state") m
    then (409, message)
    else if occurs (text "does not belong to user") m
    then (403, text "Session does not belong to current user")
    else if occurs (text "not found") m
    then (404, text "Session not found")
    else internal_error

unfoldable pub start_refusal : Python → Text → Refusal
start_refusal py message =
    let m = py.lower message in
    if occurs (text "active session") m
    then (409, text "Character already has an active session")
    else if occurs (text "not found") m
    then (404, message)
    else (400, message)

unfoldable pub character_refusal : Python → Text → Refusal
character_refusal py message =
    let m = py.lower message in
    if occurs (text "scenario not found") m || occurs (text "inactive") m
    then (404, text "Scenario not found")
    else (400, message)

-- The state of a session without what the chat shows already.
unfoldable pub cleaned_game_state : StateDict → StateDict
cleaned_game_state [] = []
cleaned_game_state ((k, v) ∷ rest) =
    let others = cleaned_game_state rest in
    if contains k (text "discoveries" ∷ text "visited_locations" ∷ [])
    then others
    else (k, v) ∷ others

unfoldable pub with_cleaned_state : SessionDetailResult → SessionDetailResult
unfolding cleaned_game_state
with_cleaned_state s = record s { game_state = cleaned_game_state s.game_state }

module _ (svc : Services) (web : Web svc) where
  abbrev pub Base : Type 0
  Base = World svc.random.Gen svc.Stored

  -- `POST /characters/`
  unfoldable pub create_character_route :
      ℕ → CreateCharacterInput → Base → Reply CharacterEntity × Base
  create_character_route user_id input =
      respond (refuse_with web.said (character_refusal svc.python)) 201
        (in_transaction (create_character svc user_id input))

  unfoldable pub replay_key : ℕ → Text → Text
  replay_key user_id key =
      text "game:start:idempotency:" ++ (svc.uuid_text user_id ++ (text ":" ++ key))

  -- A cached start answers a request with the same body. An entry that cannot be read fails outside
  -- of the `try`.
  unfoldable pub answer_start : StartGameInput → svc.Stored → Result SessionDetailResult
  answer_start input stored = elim (web.decode_start stored) [
    | none ↦ raise key_error
    | some entry ↦
        if not (text_eqb entry.payload_hash (web.start_digest input))
        then raise conflict
        else ok entry.response
  ]

  unfoldable pub replayed : Text → StartGameInput → Act svc (Option SessionDetailResult)
  unfolding answer_start
  replayed key input = do
    hit ← cached svc key
    elim hit [
      | none ↦ pure none
      | some stored ↦ (do response ← lift (answer_start input stored); pure (some response))
    ]

  unfoldable pub keep_start : Text → StartGameInput → SessionDetailResult → Act svc (Unit {0})
  keep_start key input response w = (
    ok tt,
    record w {
      cache =
          insert key
            (web.encode_start
              (record { payload_hash = web.start_digest input; response = response }))
            w.cache;
    },
  )

  -- The session as it is returned: there is no picture of the opening.
  unfoldable pub start_now : ℕ → StartGameInput → Act svc SessionDetailResult
  unfolding to_result
  start_now user_id input = do session ← start_game svc user_id input; pure (to_result session none)

  unfoldable pub start_and_keep : ℕ → StartGameInput → Text → Act svc SessionDetailResult
  start_and_keep user_id input key = do
    response ← start_now user_id input
    keep_start key input response
    pure response

  -- A known answer, or else what is done.
  unfoldable pub or_do :
      Option SessionDetailResult → Act svc SessionDetailResult → Act svc SessionDetailResult
  or_do (some response) m = pure response
  or_do none m = m

  -- The cache is looked at before the lock is had, and again under it.
  unfoldable pub start_keyed : ℕ → StartGameInput → Text → Lock Base → Act svc SessionDetailResult
  unfolding or_do
  start_keyed user_id input key lock = do
    first ← replayed key input
    or_do first (
        locked lock (do again ← replayed key input; or_do again (start_and_keep user_id input key)))

  unfoldable pub start_by_key :
      ℕ → StartGameInput → Option Text → Lock Base → Act svc SessionDetailResult
  unfolding replay_key
  start_by_key user_id input none lock = locked lock (start_now user_id input)
  start_by_key user_id input (some key) lock =
      start_keyed user_id input (replay_key user_id key) lock

  -- `POST /sessions/`
  unfoldable pub start_game_route :
      ℕ → StartGameInput → Option Text → Lock Base → Base → Reply SessionDetailResult × Base
  start_game_route user_id input key lock =
      respond (refuse_with web.said (start_refusal svc.python)) 201
        (in_transaction (start_by_key user_id input (given_key key) lock))

  -- `DELETE /sessions/{session_id}/`
  unfoldable pub delete_session_route : ℕ → ℕ → Base → Reply (Unit {0}) × Base
  delete_session_route user_id session_id =
      respond (refuse_with web.said (λ t. (404, text "Session not found"))) 204
        (in_transaction (delete_session svc user_id session_id))

  -- `POST /sessions/{session_id}/actions/`: the header `X-Is-Idempotent` says whether the answer is
  -- cached.
  unfoldable pub submit_action :
      ℕ → ℕ → Text → Option Text → Option Text → Lock Base → Base → Reply ProcessActionResult × Base
  unfolding given_key
  submit_action user_id session_id action hint key lock w = elim (given_key key) [
    | none ↦ (refusal 400 (text "Idempotency-Key header is required"), w)
    | some k ↦
        respond (refuse_with web.said (action_refusal svc.python)) 200
          (in_transaction (
            locked lock (
              execute svc user_id (record {
                session_id = session_id;
                action = action;
                action_type = hint;
                idempotency_key = k;
              }))))
          w
  ]

module _ (svc : HistoryServices) (said : Error → Text) where
  -- `GET /sessions/{session_id}/`
  unfoldable pub get_session_route :
      ℕ → ℕ → HistoryWorld svc.Stored → Reply SessionDetailResult × HistoryWorld svc.Stored
  unfolding with_cleaned_state
  get_session_route session_id user_id w =
      let (answer, w') =
        respond (api_refusal said) 200 (Queries.get_session svc session_id user_id) w in
      elim answer [
        | refusal code t ↦ (refusal code t, w')
        | reply code none ↦ (refusal 404 (text "Session not found"), w')
        | reply code (some s) ↦ (reply code (with_cleaned_state s), w')
      ]

  -- `GET /sessions/{session_id}/messages/`
  unfoldable pub get_session_messages :
      ℕ → ℕ → ℕ → Option ℕ → HistoryWorld svc.Stored → Reply HistoryPage × HistoryWorld svc.Stored
  get_session_messages session_id user_id limit cursor w =
      let (answer, w') =
        respond (api_refusal said) 200
          (Queries.execute_with_cursor svc session_id user_id limit cursor) w in
      elim answer [
        | refusal code t ↦ (refusal code t, w')
        | reply code page ↦
            if is_nil page.items && is_none cursor
            then (refusal 404 (text "Session not found"), w')
            else (reply code page, w')
      ]

-- `POST /sessions/{session_id}/messages/{message_id}/illustration/`
unfoldable pub generate_illustration_route :
    (svc : ImageServices)
    → (Error → Text)
    → ℕ
    → Requests.GenerateIllustrationInput
    → Lock Studio
    → Studio
    → Reply Requests.GenerateIllustrationResult × Studio
generate_illustration_route svc said user_id input lock =
    respond (api_refusal said) 200 (locked lock (Requests.generate_illustration svc user_id input))

-- ===== src/SessionHistory/Queries.antt =====
-- The queries themselves: `GetSessionQuery` and `GetSessionHistoryQuery`, with the reads of
-- app/game/infrastructure/repositories/game_message_repository.py that they make.
use ai_saga.Common.{
  ℕ, Option, none, some, List, ◌++◌, eqb, if◌then◌else◌, Text, text, lookup, insert, ok, raise,
  forbidden, take, drop,
}
use ai_saga.Entities.{GameMessage}
use ai_saga.Store.Tables.{find_session}
use ai_saga.Program.{Program, ◌>>=◌, ◌>>◌, pure, lift}
use ai_saga.History.{select_rows, get_messages_with_cursor}
use ai_saga.SessionHistory.{
  SessionHistoryResult, SessionDetailResult, HistoryPage, HistoryServices, HistoryWorld, to_page,
  ownership, has_image, image_of, to_result, to_history,
}

module _ (svc : HistoryServices) where
  abbrev pub Act : Type 0 → Type 0
  Act = Program (HistoryWorld svc.Stored)

  unfoldable pub get_messages : ℕ → ℕ → ℕ → List GameMessage → List GameMessage
  unfolding select_rows
  get_messages session_id limit offset table =
      take limit (drop offset (svc.by_time (select_rows (λ m. eqb m.session_id session_id) table)))

  unfoldable pub get_first_illustrated_message : ℕ → List GameMessage → List GameMessage
  unfolding select_rows has_image
  get_first_illustrated_message session_id table = take 1 (
      svc.oldest_first
        (select_rows has_image (select_rows (λ m. eqb m.session_id session_id) table)))

  -- `GetSessionQuery.execute`: a session of another user counts as missing.
  unfoldable pub get_session : ℕ → ℕ → Act (Option SessionDetailResult)
  unfolding to_result image_of get_first_illustrated_message
  get_session session_id user_id w = elim (find_session session_id w.sessions) [
    | none ↦ (ok none, w)
    | some s ↦
        if eqb s.user_id user_id
        then (
          ok (some (to_result s (image_of (get_first_illustrated_message session_id w.messages)))),
          w,
        )
        else (ok none, w)
  ]

  -- `GetSessionHistoryQuery.execute`
  unfoldable pub get_session_history : ℕ → ℕ → ℕ → ℕ → Act (Option SessionHistoryResult)
  unfolding to_history get_messages
  get_session_history session_id user_id limit offset w =
      elim (find_session session_id w.sessions) [
        | none ↦ (ok none, w)
        | some s ↦
            if eqb s.user_id user_id
            then (ok (some (to_history s (get_messages session_id limit offset w.messages))), w)
            else (raise forbidden, w)
      ]

  unfoldable pub page_key : ℕ → ℕ → ℕ → Text
  page_key session_id cursor limit =
      text "session:"
      ++ svc.uuid_text session_id
      ++ text ":messages:cursor:"
      ++ svc.uuid_text cursor
      ++ text ":limit:"
      ++ svc.number_text limit

  -- What the database gives for a page.
  unfoldable pub read_page : ℕ → ℕ → Option ℕ → List GameMessage → HistoryPage
  unfolding to_page
  read_page session_id limit cursor table =
      to_page (get_messages_with_cursor svc.newest_first session_id table limit cursor)

  unfoldable pub read_with_cursor : ℕ → ℕ → Option ℕ → Act HistoryPage
  unfolding read_page
  read_with_cursor session_id limit cursor w =
      (ok (read_page session_id limit cursor w.messages), w)

  -- `self._redis.get`, where an empty text counts as none.
  unfoldable pub cached_page : Text → Act (Option svc.Stored)
  cached_page key w = elim (lookup key w.cache) [
    | none ↦ (ok none, w)
    | some stored ↦ if svc.is_blank stored then (ok none, w) else (ok (some stored), w)
  ]

  unfoldable pub keep_page : Text → HistoryPage → Act (Unit {0})
  keep_page key p w = (ok tt, record w { cache = insert key (svc.encode p) w.cache })

  -- The part of the query for an older page.
  unfoldable pub read_cached : ℕ → ℕ → ℕ → Act HistoryPage
  unfolding cached_page
  read_cached session_id limit cursor = do
    hit ← cached_page (page_key session_id cursor limit)
    elim hit [
      | some stored ↦ lift (svc.decode stored)
      | none ↦ (do
        p ← read_with_cursor session_id limit (some cursor)
        keep_page (page_key session_id cursor limit) p
        pure p)
    ]

  unfoldable pub validate_session_ownership : ℕ → ℕ → Act (Unit {0})
  unfolding ownership
  validate_session_ownership session_id user_id w =
      (ownership (find_session session_id w.sessions) user_id, w)

  unfoldable pub execute_with_cursor : ℕ → ℕ → ℕ → Option ℕ → Act HistoryPage
  unfolding validate_session_ownership
  execute_with_cursor session_id user_id limit none = do
    validate_session_ownership session_id user_id
    read_with_cursor session_id limit none
  execute_with_cursor session_id user_id limit (some cursor) = do
    validate_session_ownership session_id user_id
    (if svc.has_redis
        then read_cached session_id limit cursor
        else read_with_cursor session_id limit (some cursor))

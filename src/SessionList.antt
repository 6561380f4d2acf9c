-- ===== src/SessionList.antt =====
-- The list of a user's sessions: `list_by_user` of
-- app/game/infrastructure/repositories/game_session_repository.py,
-- app/game/application/queries/get_user_sessions.py, and the route that cuts it into pages. What the
-- database does for `ORDER BY last_activity_at DESC, id DESC` is a parameter.
pub mod Wanted
pub mod Listed
use ai_saga.Common.{
  ℕ, suc, Bool, true, false, not, ◌&&◌, ◌||◌, Option, none, some, List, [], ◌∷◌, if◌then◌else◌,
  is_nil, length, take, ltb, eqb, Text, Result, ok, raise, or_raise, ◌>>=◌, ◌>>◌, attribute_error,
}
use ai_saga.Values.{SessionStatus, EndingType}
use ai_saga.Session.{GameSession}
use ai_saga.Character.{CharacterEntity}
use ai_saga.Store.Tables.{Db, find_session, find_character, find_scenario}

-- `UserSessionReadModel`, and the item and the response that copy it.
pub record SessionListItem : Type 0 where
  pub id : ℕ
  pub character_name : Text
  pub scenario_name : Text
  pub status : SessionStatus
  pub turn_count : ℕ
  pub max_turns : ℕ
  pub started_at : ℕ
  pub last_activity_at : ℕ
  pub ending_type : Option EndingType
  pub character : CharacterEntity

pub record SessionPage : Type 0 where
  pub items : List SessionListItem
  pub next_cursor : Option ℕ
  pub has_more : Bool

unfoldable pub character_ids : ℕ → List CharacterEntity → List ℕ
character_ids user_id [] = []
character_ids user_id (c ∷ cs) =
    let rest = character_ids user_id cs in if eqb c.user_id user_id then c.id ∷ rest else rest

-- `IN`
unfoldable pub is_among : ℕ → List ℕ → Bool
is_among i [] = false
is_among i (j ∷ js) = eqb i j || is_among i js

-- The condition of the query for the cursor's row.
unfoldable pub is_earlier : Option GameSession → GameSession → Bool
is_earlier none s = true
is_earlier (some c) s =
    ltb s.last_activity_at c.last_activity_at
    || (eqb s.last_activity_at c.last_activity_at && ltb s.id c.id)

unfoldable pub cursor_row : Option ℕ → List GameSession → Option GameSession
unfolding find_session
cursor_row none ss = none
cursor_row (some i) ss = find_session i ss

abbrev pub status_number : SessionStatus → ℕ
status_number SessionStatus.active = 0
status_number SessionStatus.paused = 1
status_number SessionStatus.completed = 2
status_number SessionStatus.ended = 3

unfoldable pub has_status : Option SessionStatus → GameSession → Bool
has_status none s = true
has_status (some status) s = eqb (status_number s.status) (status_number status)

-- `WHERE`
unfoldable pub listed : (GameSession → Bool) → List GameSession → List GameSession
listed p [] = []
listed p (s ∷ ss) = let rest = listed p ss in if p s then s ∷ rest else rest

-- A session refers to a character and a scenario.
unfoldable pub to_user_session_read_model : Db → GameSession → Result SessionListItem
unfolding find_character find_scenario
to_user_session_read_model db s = do
  character ← or_raise (find_character s.character_id db.characters) attribute_error
  scenario ← or_raise (find_scenario s.scenario_id db.scenarios) attribute_error
  ok (record {
    id = s.id;
    character_name = character.name;
    scenario_name = scenario.name;
    status = s.status;
    turn_count = s.turn_count;
    max_turns = s.max_turns;
    started_at = s.started_at;
    last_activity_at = s.last_activity_at;
    ending_type = s.ending_type;
    character = character;
  })

unfoldable pub to_list : Db → List GameSession → Result (List SessionListItem)
unfolding to_user_session_read_model
to_list db [] = ok []
to_list db (s ∷ ss) = do
  item ← to_user_session_read_model db s
  items ← to_list db ss
  ok (item ∷ items)

unfoldable pub last_item : List SessionListItem → Option ℕ
last_item [] = none
last_item (i ∷ []) = some i.id
last_item (i ∷ j ∷ is) = last_item (j ∷ is)

-- The route's page of at most one item more than the limit.
unfoldable pub to_session_page : ℕ → List SessionListItem → SessionPage
unfolding last_item
to_session_page limit sessions =
    if ltb limit (length sessions)
    then record {
      items = take limit sessions;
      next_cursor = last_item (take limit sessions);
      has_more = true;
    }
    else record { items = sessions; next_cursor = none; has_more = false }

module _ (order : List GameSession → List GameSession) where
  unfoldable pub user_rows : Db → List ℕ → Option SessionStatus → Option ℕ → List GameSession
  unfolding listed is_among is_earlier cursor_row has_status
  user_rows db ids status cursor = order (
      listed
        (λ s.
          is_among s.character_id ids
          && (is_earlier (cursor_row cursor db.sessions) s && has_status status s))
        db.sessions)

  unfoldable pub list_by_user :
      Db → ℕ → Option SessionStatus → ℕ → Option ℕ → Result (List SessionListItem)
  unfolding character_ids user_rows to_list
  list_by_user db user_id status limit cursor =
      let ids = character_ids user_id db.characters in
      if is_nil ids then ok [] else to_list db (take (suc limit) (user_rows db ids status cursor))

  -- `GetUserSessionsQuery.get_active_session`
  unfoldable pub get_active_session : Db → ℕ → Result (Option SessionListItem)
  get_active_session db user_id = do
    sessions ← list_by_user db user_id (some SessionStatus.active) 1 none
    ok (first_item sessions)
    where
      first_item : List SessionListItem → Option SessionListItem
      first_item [] = none
      first_item (i ∷ is) = some i

  -- `GET /sessions/`
  unfoldable pub list_sessions : Db → ℕ → Option SessionStatus → ℕ → Option ℕ → Result SessionPage
  unfolding to_session_page
  list_sessions db user_id status limit cursor = do
    sessions ← list_by_user db user_id status limit cursor
    ok (to_session_page limit sessions)

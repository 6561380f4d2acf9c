-- ===== src/SessionHistory.antt =====
-- The queries on one session: app/game/application/queries/get_session_history.py and
-- get_session.py. The orders that the database sorts by and the cache's text of a page are
-- parameters; Redis answers every call, and an entry stays until it is overwritten.
pub mod Queries
pub mod Cached
use ai_saga.Common.{
  ℕ, ◌≡◌, Bool, true, false, not, Option, none, some, List, [], ◌∷◌, ◌++◌, map, eqb, if◌then◌else◌,
  Text, text, lookup, insert, Result, ok, raise, forbidden, take, drop,
}
use ai_saga.Values.{SessionStatus, EndingType}
use ai_saga.Json.{Json}
use ai_saga.GameState.{StateDict}
use ai_saga.Entities.{GameMessage}
use ai_saga.Session.{GameSession}
use ai_saga.Store.Tables.{find_session}
use ai_saga.Program.{Program, ◌>>=◌, ◌>>◌, pure, lift}
use ai_saga.Turn.Endings.{role_value}
use ai_saga.History.{Page, select_rows, get_messages_with_cursor}

pub record MessageHistoryItem : Type 0 where
  pub id : ℕ
  pub role : Text
  pub content : Text
  pub created_at : ℕ
  pub parsed_response : Option Json
  pub image_url : Option Text

pub record SessionHistoryResult : Type 0 where
  pub session_id : ℕ
  pub turn_count : ℕ
  pub max_turns : ℕ
  pub status : SessionStatus
  pub current_location : Text
  pub messages : List MessageHistoryItem

pub record SessionDetailResult : Type 0 where
  pub id : ℕ
  pub character_id : ℕ
  pub scenario_id : ℕ
  pub current_location : Text
  pub game_state : StateDict
  pub status : SessionStatus
  pub turn_count : ℕ
  pub max_turns : ℕ
  pub ending_type : Option EndingType
  pub started_at : ℕ
  pub last_activity_at : ℕ
  pub image_url : Option Text

-- A page of items, the next cursor, and whether there is more.
pub record HistoryPage : Type 0 where
  pub items : List MessageHistoryItem
  pub next_cursor : Option ℕ
  pub has_more : Bool

pub record HistoryServices : Type 1 where
  -- `ORDER BY created_at DESC, id DESC`, `created_at`, and `created_at, id`
  pub newest_first : List GameMessage → List GameMessage
  pub by_time : List GameMessage → List GameMessage
  pub oldest_first : List GameMessage → List GameMessage
  pub uuid_text : ℕ → Text
  pub number_text : ℕ → Text
  -- whether there is a Redis, and its texts of pages with a test for the empty one
  pub has_redis : Bool
  pub Stored : Type 0
  pub is_blank : Stored → Bool
  pub encode : HistoryPage → Stored
  pub decode : Stored → Result HistoryPage
  pub decode-encode : (p : HistoryPage) → decode (encode p) ≡ ok p
  pub is_blank-encode : (p : HistoryPage) → is_blank (encode p) ≡ false

pub record HistoryWorld (S : Type 0) : Type 0 where
  pub sessions : List GameSession
  pub messages : List GameMessage
  pub cache : List (Text × S)

unfoldable pub to_message_item : GameMessage → MessageHistoryItem
to_message_item m = record {
  id = m.id;
  role = role_value m.role;
  content = m.content;
  created_at = m.created_at;
  parsed_response = m.parsed_response;
  image_url = m.image_url;
}

unfoldable pub to_page : Page → HistoryPage
unfolding to_message_item
to_page p = record {
  items = map to_message_item p.messages;
  next_cursor = p.next_cursor;
  has_more = p.has_more;
}

-- A session that is missing passes.
unfoldable pub ownership : Option GameSession → ℕ → Result (Unit {0})
ownership none u = ok tt
ownership (some s) u = if eqb s.user_id u then ok tt else raise forbidden

unfoldable pub has_image : GameMessage → Bool
has_image m = elim m.image_url [ none ↦ false | some url ↦ true ]

unfoldable pub image_of : List GameMessage → Option Text
image_of [] = none
image_of (m ∷ ms) = m.image_url

unfoldable pub to_result : GameSession → Option Text → SessionDetailResult
to_result s url = record {
  id = s.id;
  character_id = s.character_id;
  scenario_id = s.scenario_id;
  current_location = s.current_location;
  game_state = s.game_state;
  status = s.status;
  turn_count = s.turn_count;
  max_turns = s.max_turns;
  ending_type = s.ending_type;
  started_at = s.started_at;
  last_activity_at = s.last_activity_at;
  image_url = url;
}

unfoldable pub to_history : GameSession → List GameMessage → SessionHistoryResult
unfolding to_message_item
to_history s messages = record {
  session_id = s.id;
  turn_count = s.turn_count;
  max_turns = s.max_turns;
  status = s.status;
  current_location = s.current_location;
  messages = map to_message_item messages;
}

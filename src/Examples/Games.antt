-- ===== src/Examples/Games.antt =====
-- A game started twice, the pages of a short history, deletions, and a new character.
use ai_saga.Common.{
  ℕ, ◌≡◌, refl, none, some, List, [], ◌∷◌, if◌then◌else◌, text, ok, raise, service_error, ◌≤◌,
  length, suc, arith,
}
use ai_saga.Values.{MessageRole, SessionStatus}
use ai_saga.Entities.{GameMessage}
use ai_saga.Session.{GameSession}
use ai_saga.Store.Tables.{find_session, find_character, find_scenario, find_active}
use ai_saga.Store.Monad.{World, in_transaction}
use ai_saga.Store.Services.{CacheEntry}
use ai_saga.Start.{
  StartGameInput, check_start, owned_character, playable_scenario, generate_initial_narrative,
  start_game,
}
use ai_saga.Turn.Effects.{
  read_clock, draw_id, save_session_row, save_character_row, generate_response, create_message,
}
use ai_saga.Start.Opens
use ai_saga.Character.{CharacterEntity}
use ai_saga.Progression.{User, find_user, get_user_game_level}
use ai_saga.Manage.{
  drop_session, drop_messages, drop_memories, drop_character, is_played, deletable,
  delete_session_rows, delete_character, delete_session, CreateCharacterInput, create_character,
}
use ai_saga.Manage.Deletes
use ai_saga.Manage.Creates
use ai_saga.History.{find_message, is_older, select_rows, session_rows}
use ai_saga.History.Pages
use ai_saga.Examples.Setup.{services, world, db, session, character}

-- The small world before its character has a session.
abbrev quiet : World ℕ CacheEntry
quiet = record world { db = record db { sessions = [] } }

abbrev start : StartGameInput
start = record { character_id = 3; scenario_id = 2; max_turns = none }

started :
    (t : GameSession) × (w' : World ℕ CacheEntry) × (start_game services 7 start quiet ≡ (ok t, w'))
unfolding start_game check_start owned_character find_character playable_scenario find_scenario
    find_active read_clock draw_id save_session_row generate_initial_narrative generate_response
    create_message
started = (_, _, refl)

no_session : find_session (services.uuid7 quiet.ids) quiet.db.sessions ≡ none
unfolding find_session
no_session = refl

start_game-Opens_example : Opens.Opens services 7 start started.0 quiet started.1
start_game-Opens_example =
    Opens.start_game-Opens services 7 start quiet started.1 started.0 no_session started.2

abbrev message : ℕ → ℕ → ℕ → GameMessage
message id session_id time = record {
  id = id;
  session_id = session_id;
  role = MessageRole.user;
  content = text "hi";
  parsed_response = none;
  token_count = none;
  image_url = none;
  created_at = time;
}

abbrev table : List GameMessage
table = message 1 1 1 ∷ message 2 1 1 ∷ message 3 8 4 ∷ message 4 1 5 ∷ []

-- Insertion by time and identifier, newest first.
unfoldable place : GameMessage → List GameMessage → List GameMessage
unfolding is_older
place m [] = m ∷ []
place m (n ∷ ns) = let rest = place m ns in if is_older m n then m ∷ n ∷ ns else n ∷ rest

unfoldable newest_first : List GameMessage → List GameMessage
unfolding place
newest_first [] = []
newest_first (m ∷ ms) = place m (newest_first ms)

sorted : Pages.Descending (Pages.rows newest_first 1 table)
unfolding session_rows select_rows is_older newest_first place
sorted = (((tt, refl), refl), ((tt, refl), (tt, tt)))

listed : Pages.Known newest_first 1 table (Pages.rows newest_first 1 table)
unfolding session_rows select_rows is_older newest_first place find_message
listed = (((tt, refl), refl), refl)

read_on-rows_example :
    Pages.read_on newest_first 1 table (suc (length (Pages.rows newest_first 1 table))) 2 none
    ≡ Pages.rows newest_first 1 table
read_on-rows_example = Pages.read_on-rows newest_first 1 table 2 (omega arith) sorted listed

-- The small world with the deletion done.
abbrev emptied : World ℕ CacheEntry
emptied = record world { db = record db { sessions = []; characters = [] } }

deleted : delete_session services 7 1 world ≡ (ok tt, emptied)
unfolding delete_session delete_session_rows delete_character find_session find_character deletable
    drop_session drop_messages drop_memories drop_character is_played
deleted = refl

delete_session-Gone_example : Deletes.Gone services 7 1 world emptied
delete_session-Gone_example = Deletes.delete_session-Gone services 7 1 world emptied deleted

-- An earlier game of the same character.
abbrev earlier : GameSession
earlier = record session { id = 9; status = SessionStatus.completed }

abbrev replayed : World ℕ CacheEntry
replayed = record world { db = record db { sessions = session ∷ earlier ∷ [] } }

first_found : find_session 1 replayed.db.sessions ≡ some session
unfolding find_session
first_found = refl

second_found : find_session 9 replayed.db.sessions ≡ some earlier
unfolding find_session
second_found = refl

character_found : find_character 3 replayed.db.characters ≡ some character
unfolding find_character
character_found = refl

delete_session_shared_example :
    in_transaction (delete_session services 7 1) replayed
    ≡ (raise service_error, record replayed { db = replayed.committed })
delete_session_shared_example =
    Deletes.delete_session_shared services 7 1 9 replayed session earlier character first_found
      character_found refl (λ e. ground arith) second_found refl

abbrev request : CreateCharacterInput
request = record {
  name = text "Bo";
  scenario_id = 2;
  profile = record { age = 20; gender = text "m"; appearance = []; goal = none };
}

created :
    (c : CharacterEntity) × (w' : World ℕ CacheEntry) × (create_character services 7 request world
      ≡ (ok c, w'))
unfolding create_character playable_scenario find_scenario get_user_game_level find_user draw_id
    read_clock save_character_row
created = (_, _, refl)

unused : find_character (services.uuid7 world.ids) world.db.characters ≡ none
unfolding find_character
unused = refl

leveled : (v : User) → find_user 7 world.db.users ≡ some v → 1 ≤ v.game_level
unfolding find_user
leveled v h = ground arith

create_character-Creates_example : Creates.Creates services 7 request created.0 world created.1
create_character-Creates_example =
    Creates.create_character-Creates services 7 request world created.1 created.0 unused leveled
      created.2

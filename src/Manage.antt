-- ===== src/Manage.antt =====
-- Creating a character and deleting a session: app/game/application/use_cases/create_character.py
-- and delete_session.py, with the deletions of the repositories. The sessions' foreign key to
-- characters has no cascade, so the database refuses to delete a character that a session names.
pub mod Deletes
pub mod Creates
use ai_saga.Common.{
  ℕ, Bool, true, false, not, ◌||◌, Option, none, some, List, [], ◌∷◌, if◌then◌else◌, eqb, Text,
  Result, ok, raise, or_raise, session_not_found, session_not_owned, service_error,
}
use ai_saga.Entities.{GameMessage, GameMemory}
use ai_saga.Session.{GameSession}
use ai_saga.Character.{CharacterEntity, CharacterProfile}
use ai_saga.Progression.{calculate_starting_hp, get_user_game_level}
use ai_saga.Store.Tables.{Db, find_session, find_character, find_scenario}
use ai_saga.Store.Monad.{World, ◌>>=◌, ◌>>◌, pure, lift, gets, modify}
use ai_saga.Store.Services.{Services}
use ai_saga.Start.{playable_scenario}
use ai_saga.Turn.Effects.{Act, read_clock, draw_id, save_character_row}

-- `DELETE FROM … WHERE …` on each table.
unfoldable pub drop_session : ℕ → List GameSession → List GameSession
drop_session i [] = []
drop_session i (s ∷ ss) = let rest = drop_session i ss in if eqb s.id i then rest else s ∷ rest

unfoldable pub drop_messages : ℕ → List GameMessage → List GameMessage
drop_messages i [] = []
drop_messages i (m ∷ ms) =
    let rest = drop_messages i ms in if eqb m.session_id i then rest else m ∷ rest

unfoldable pub drop_memories : ℕ → List GameMemory → List GameMemory
drop_memories i [] = []
drop_memories i (m ∷ ms) =
    let rest = drop_memories i ms in if eqb m.session_id i then rest else m ∷ rest

unfoldable pub drop_character : ℕ → List CharacterEntity → List CharacterEntity
drop_character i [] = []
drop_character i (c ∷ cs) = let rest = drop_character i cs in if eqb c.id i then rest else c ∷ rest

-- Whether a session names the character.
unfoldable pub is_played : ℕ → List GameSession → Bool
is_played c [] = false
is_played c (s ∷ ss) = eqb s.character_id c || is_played c ss

-- The check of step 2: a missing character counts as another's.
unfoldable pub deletable : ℕ → Option CharacterEntity → Result CharacterEntity
deletable user_id none = raise session_not_owned
deletable user_id (some c) = if not (eqb c.user_id user_id) then raise session_not_owned else ok c

-- The fields of a new character that the request carries.
pub record CreateCharacterInput : Type 0 where
  pub name : Text
  pub scenario_id : ℕ
  pub profile : CharacterProfile

unfoldable pub new_character : ℕ → ℕ → ℕ → ℕ → CreateCharacterInput → ℕ → CharacterEntity
new_character id now user_id scenario_id input level = record {
  id = id;
  user_id = user_id;
  scenario_id = scenario_id;
  name = input.name;
  profile = some input.profile;
  stats = record {
    hp = calculate_starting_hp level;
    max_hp = calculate_starting_hp level;
    level = level;
    experience = 0;
    current_experience = 0;
  };
  inventory = [];
  is_active = true;
  created_at = now;
}

module _ (svc : Services) where
  unfoldable pub delete_session_rows : ℕ → Act svc (Unit {0})
  delete_session_rows i = modify (λ db. record db {
    memories = drop_memories i db.memories;
    messages = drop_messages i db.messages;
    sessions = drop_session i db.sessions;
  })

  unfoldable pub delete_character : ℕ → Act svc (Unit {0})
  delete_character c w =
      if is_played c w.db.sessions
      then (raise service_error, w)
      else modify (λ db. record db { characters = drop_character c db.characters }) w

  unfoldable pub delete_session : ℕ → ℕ → Act svc (Unit {0})
  delete_session user_id session_id = do
    found ← gets (λ db. find_session session_id db.sessions)
    session ← lift (or_raise found session_not_found)
    row ← gets (λ db. find_character session.character_id db.characters)
    character ← lift (deletable user_id row)
    delete_session_rows session_id
    delete_character character.id

  unfoldable pub create_character : ℕ → CreateCharacterInput → Act svc CharacterEntity
  create_character user_id input = do
    found ← gets (λ db. find_scenario input.scenario_id db.scenarios)
    scenario ← lift (playable_scenario found)
    users ← gets (λ db. db.users)
    level ← lift (get_user_game_level user_id users)
    id ← draw_id svc
    now ← read_clock svc
    let character = new_character id now user_id scenario.id input level
    save_character_row svc character
    pure character

-- ===== src/Store/Tables.antt =====
-- The tables, and the repositories' reads and writes as functions on them.
use ai_saga.Common.{ℕ, ◌&&◌, Option, none, some, List, [], ◌∷◌, eqb, if◌then◌else◌}
use ai_saga.Entities.{GameMessage, GameMemory, Scenario}
use ai_saga.Session.{GameSession, is_active}
use ai_saga.Character.{CharacterEntity}
use ai_saga.Progression.{User}

pub record Db : Type 0 where
  pub sessions : List GameSession
  pub messages : List GameMessage
  pub memories : List GameMemory
  pub characters : List CharacterEntity
  pub scenarios : List Scenario
  pub users : List User

-- `GameSessionRepositoryImpl.get_by_id`
unfoldable pub find_session : ℕ → List GameSession → Option GameSession
find_session i [] = none
find_session i (s ∷ ss) = if eqb s.id i then some s else find_session i ss

-- The columns that `GameSessionMapper.to_dict` writes, over an existing row.
unfoldable pub overwrite_session : GameSession → GameSession → GameSession
overwrite_session old new = record old {
  current_location = new.current_location;
  game_state = new.game_state;
  status = new.status;
  turn_count = new.turn_count;
  max_turns = new.max_turns;
  ending_type = new.ending_type;
  ended_at = new.ended_at;
  last_activity_at = new.last_activity_at;
}

-- `GameSessionRepositoryImpl.save`: an insert, or an update of the row.
unfoldable pub save_session : GameSession → List GameSession → List GameSession
save_session s [] = s ∷ []
save_session s (r ∷ rs) =
    if eqb r.id s.id then overwrite_session r s ∷ rs else r ∷ save_session s rs

-- `GameSessionRepositoryImpl.get_active_by_character`
unfoldable pub find_active : ℕ → List GameSession → Option GameSession
find_active c [] = none
find_active c (s ∷ ss) = if eqb s.character_id c && is_active s then some s else find_active c ss

unfoldable pub find_character : ℕ → List CharacterEntity → Option CharacterEntity
find_character i [] = none
find_character i (c ∷ cs) = if eqb c.id i then some c else find_character i cs

-- The columns that `CharacterMapper.to_dict` writes, over an existing row.
unfoldable pub overwrite_character : CharacterEntity → CharacterEntity → CharacterEntity
overwrite_character old new = record old {
  name = new.name;
  profile = new.profile;
  stats = new.stats;
  inventory = new.inventory;
  is_active = new.is_active;
}

-- `CharacterRepositoryImpl.save`
unfoldable pub save_character : CharacterEntity → List CharacterEntity → List CharacterEntity
save_character c [] = c ∷ []
save_character c (r ∷ rs) =
    if eqb r.id c.id then overwrite_character r c ∷ rs else r ∷ save_character c rs

unfoldable pub find_scenario : ℕ → List Scenario → Option Scenario
find_scenario i [] = none
find_scenario i (s ∷ ss) = if eqb s.id i then some s else find_scenario i ss

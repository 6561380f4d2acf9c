-- ===== src/Manage/Creates.antt =====
-- What a new character is.
use ai_saga.Common.{
  ℕ, ◌+◌, ◌*◌, ◌-◌, ◌≤◌, ◌≡◌, ◌≢◌, true, none, some, List, [], ◌∷◌, ok, Option-cases, inl, inr,
  arith,
}
use ai_saga.Entities.{Scenario}
use ai_saga.Character.{CharacterEntity}
use ai_saga.Progression.{calculate_starting_hp, get_user_game_level, User, find_user}
use ai_saga.Store.Tables.{find_character, find_scenario, save_character, overwrite_character}
use ai_saga.Store.Monad.{World}
use ai_saga.Store.Services.{Services}
use ai_saga.Turn.Inventory.{IsHealthy}
use ai_saga.Start.{playable_scenario}
use ai_saga.Turn.Effects.{read_clock, draw_id, save_character_row}
use ai_saga.Manage.{CreateCharacterInput, new_character, create_character}

find_character-fresh :
    (c : CharacterEntity) (cs : List CharacterEntity)
    → find_character c.id cs ≡ none
    → find_character c.id (save_character c cs) ≡ some c
unfolding find_character save_character
find_character-fresh c [] h = ground arith
find_character-fresh c (d ∷ cs) h = ground (arith, find_character-fresh c cs)

find_character-other :
    (c : CharacterEntity) (j : ℕ) (cs : List CharacterEntity)
    → j ≢ c.id
    → find_character j (save_character c cs) ≡ find_character j cs
unfolding find_character save_character overwrite_character
find_character-other c j [] h = ground arith
find_character-other c j (d ∷ cs) h = ground (arith, find_character-other c j cs h)

module _ (svc : Services) where
  -- What a creation by the user `u` has found, and the character `c` that it makes.
  pub record Creates (u : ℕ) (input : CreateCharacterInput) (c : CharacterEntity)
      (w w' : World svc.random.Gen svc.Stored) : Type 0 where
    pub scenario : Scenario
    pub user : User
    pub found : find_scenario input.scenario_id w.db.scenarios ≡ some scenario
    pub playable : scenario.is_active ≡ true
    pub known : find_user u w.db.users ≡ some user
    pub owner : (c.user_id ≡ u) × (c.scenario_id ≡ scenario.id)
    pub level : c.stats.level ≡ user.game_level
    pub full : (c.stats.hp ≡ 100 + (user.game_level - 1) * 10) × (c.stats.max_hp ≡ c.stats.hp)
    pub healthy : IsHealthy c.stats
    pub fresh : (c.stats.experience ≡ 0) × (c.stats.current_experience ≡ 0)
    pub given : (c.name ≡ input.name) × (c.profile ≡ some input.profile)
    pub empty : c.inventory ≡ []
    pub playing : c.is_active ≡ true
    pub stored : find_character c.id w'.db.characters ≡ some c
    pub others :
        (j : ℕ) → j ≢ c.id → find_character j w'.db.characters ≡ find_character j w.db.characters
    pub rest : w'.db ≡ record w.db { characters = w'.db.characters }

  -- Where the new identifier is none of a character and every user's level is 1 or more, creating a
  -- character succeeds only for an active scenario and a known user. The character is the user's,
  -- for that scenario, active, with the name and the profile that were given, at the user's level,
  -- with full health of 100 and 10 more for each level above the first, with no experience and no
  -- item. It is stored under its identifier, and no other character nor anything else of the tables
  -- changes.
  pub create_character-Creates :
      (u : ℕ) (input : CreateCharacterInput) (w w' : World svc.random.Gen svc.Stored)
      (c : CharacterEntity)
      → find_character (svc.uuid7 w.ids) w.db.characters ≡ none
      → ((v : User) → find_user u w.db.users ≡ some v → 1 ≤ v.game_level)
      → create_character svc u input w ≡ (ok c, w')
      → Creates u input c w w'
  unfolding create_character playable_scenario get_user_game_level new_character
      calculate_starting_hp draw_id read_clock save_character_row
  create_character-Creates u input w w' c fresh levels h =
      elim (Option-cases (find_scenario input.scenario_id w.db.scenarios)) [
        | inl missing ↦ ground arith
        | inr (s, found) ↦ elim (Option-cases (find_user u w.db.users)) [
          | inl missing ↦ ground arith
          | inr (v, known) ↦
              let leveled : 1 ≤ v.game_level = levels v known in
              record {
                scenario = s;
                user = v;
                found = found;
                playable = grind arith;
                known = known;
                owner = grind arith;
                level = grind arith;
                full = grind arith;
                healthy = grind arith;
                fresh = grind arith;
                given = grind arith;
                empty = grind arith;
                playing = grind arith;
                stored = grind (arith, find_character-fresh c w.db.characters);
                others = λ j other. grind (arith, find_character-other c j w.db.characters other);
                rest = grind arith;
              }
        ]
      ]

-- ===== src/Start/Opens.antt =====
-- What a started game is, and that a character has one running game at most.
use ai_saga.Common.{
  ℕ, suc, ◌+◌, ◌≡◌, ◌≢◌, ◌∙◌, ap, sym, refl, true, none, some, List, [], ◌∷◌, ◌++◌, ok, raise,
  already_active, inl, inr, ◌⊎◌, Result, Error, arith,
}
use ai_saga.Values.{SessionStatus, MessageRole}
use ai_saga.Entities.{Scenario, GameMessage}
use ai_saga.Session.{GameSession, is_active}
use ai_saga.Character.{CharacterEntity}
use ai_saga.Store.Tables.{
  Db, find_session, save_session, find_active, find_character, find_scenario,
}
use ai_saga.Store.Rows.{find_character-id, find_session-other}
use ai_saga.Store.Monad.{World}
use ai_saga.Store.Services.{Services}
use ai_saga.Turn.Effects.{read_clock, draw_id, generate_response, create_message, save_session_row}
use ai_saga.Start.{
  StartGameInput, owned_character, playable_scenario, chosen_turns, new_session,
  generate_initial_narrative, check_start, start_game,
}

find_session-fresh :
    (s : GameSession) (ss : List GameSession)
    → find_session s.id ss ≡ none
    → find_session s.id (save_session s ss) ≡ some s
unfolding find_session save_session
find_session-fresh s [] h = ground arith
find_session-fresh s (r ∷ rs) h = ground (arith, find_session-fresh s rs)

find_active-fresh :
    (s : GameSession) (ss : List GameSession)
    → find_session s.id ss ≡ none
    → find_active s.character_id ss ≡ none
    → s.status ≡ SessionStatus.active
    → find_active s.character_id (save_session s ss) ≡ some s
unfolding find_session save_session find_active is_active
find_active-fresh s [] h f a = ground arith
find_active-fresh s (r ∷ rs) h f a = ground (arith, find_active-fresh s rs)

outcomes :
    {A W : Type 0} (p : Result A × W)
    → ((a : A) × (p ≡ (ok a, p.1))) ⊎ ((e : Error) × (p ≡ (raise e, p.1)))
outcomes (ok a, w) = inl (a, refl)
outcomes (raise e, w) = inr (e, refl)

module _ (svc : Services) where
  -- What the checks have established.
  pub record Checked (u : ℕ) (input : StartGameInput) (w : World svc.random.Gen svc.Stored)
      (c : CharacterEntity) (s : Scenario) : Type 0 where
    pub row : find_character input.character_id w.db.characters ≡ some c
    pub owned : c.user_id ≡ u
    pub found : find_scenario input.scenario_id w.db.scenarios ≡ some s
    pub playable : s.is_active ≡ true
    pub belongs : c.scenario_id ≡ s.id
    pub idle : find_active c.id w.db.sessions ≡ none

  check_start_lem :
      (u : ℕ) (input : StartGameInput) (w w' : World svc.random.Gen svc.Stored)
      (c : CharacterEntity) (s : Scenario)
      → check_start svc u input w ≡ (ok (c, s), w')
      → Checked u input w c s × (w' ≡ w)
  unfolding check_start owned_character playable_scenario
  check_start_lem u input w w' c s h = grind arith

  -- The tables with one more message at their end.
  abbrev pub with_message : GameMessage → Db → Db
  with_message m db = record db { messages = db.messages ++ m ∷ [] }

  initial-keeps :
      (t : GameSession) (c : CharacterEntity) (s : Scenario)
      (w w' : World svc.random.Gen svc.Stored)
      → generate_initial_narrative svc t c s w ≡ (ok tt, w')
      → (m : GameMessage) × (w'.db ≡ with_message m w.db)
        × (w'.cache ≡ w.cache)
        × (m.session_id ≡ t.id)
        × (m.role ≡ MessageRole.assistant)
  unfolding generate_initial_narrative generate_response create_message
  initial-keeps t c s w w' h = grind arith

  -- A session of the user `u` as it is before its first turn.
  pub record IsNew (u : ℕ) (input : StartGameInput) (t : GameSession)
      (w : World svc.random.Gen svc.Stored) (s : Scenario) : Type 0 where
    pub id : t.id ≡ svc.uuid7 w.ids
    pub owner : t.user_id ≡ u
    pub of_character : t.character_id ≡ input.character_id
    pub of_scenario : t.scenario_id ≡ s.id
    pub place : t.current_location ≡ s.initial_location
    pub empty : t.game_state ≡ []
    pub status : t.status ≡ SessionStatus.active
    pub turns : t.turn_count ≡ 0
    pub asked : (n : ℕ) → input.max_turns ≡ some (suc n) → t.max_turns ≡ suc n
    pub unasked : input.max_turns ≡ none → t.max_turns ≡ svc.game_max_turns
    pub open_ended : (t.ending_type ≡ none) × (t.ended_at ≡ none)

  -- What a started game is: the session `t` that the user `u` gets, and the world after.
  pub record Opens (u : ℕ) (input : StartGameInput) (t : GameSession)
      (w w' : World svc.random.Gen svc.Stored) : Type 0 where
    pub character : CharacterEntity
    pub scenario : Scenario
    pub checked : Checked u input w character scenario
    pub new : IsNew u input t w scenario
    pub stored : find_session t.id w'.db.sessions ≡ some t
    pub running : find_active input.character_id w'.db.sessions ≡ some t
    pub others : (j : ℕ) → j ≢ t.id → find_session j w'.db.sessions ≡ find_session j w.db.sessions
    pub committed : w'.committed ≡ w'.db
    pub people : (w'.db.characters ≡ w.db.characters) × (w'.db.scenarios ≡ w.db.scenarios)
    pub opening : GameMessage
    pub opens : (opening.session_id ≡ t.id) × (opening.role ≡ MessageRole.assistant)
    pub told : w'.db.messages ≡ w.db.messages ++ opening ∷ []
    pub rest : (w'.db.memories ≡ w.db.memories) × (w'.db.users ≡ w.db.users) × (w'.cache ≡ w.cache)

  -- The part of a start after the checks.
  open_game :
      (u : ℕ) (input : StartGameInput) (w w' : World svc.random.Gen svc.Stored) (t : GameSession)
      → start_game svc u input w ≡ (ok t, w')
      → (c : CharacterEntity) × (s : Scenario) × (check_start svc u input w
          ≡ (ok (c, s), (check_start svc u input w).1))
  unfolding start_game
  open_game u input w w' t h = elim (outcomes (check_start svc u input w)) [
    | inl ((c, s), fine) ↦ (c, s, fine)
    | inr (e, bad) ↦ ground arith
  ]

  started :
      (u : ℕ) (input : StartGameInput) (w w' : World svc.random.Gen svc.Stored) (t : GameSession)
      → start_game svc u input w ≡ (ok t, w')
      → (c : CharacterEntity) × (s : Scenario) × Checked u input w c s
        × (t
            ≡ new_session
                (svc.uuid7 w.ids)
                (svc.time w.clock)
                u
                c
                s
                (chosen_turns input.max_turns svc.game_max_turns))
        × (w'.committed ≡ w'.db)
        × (m : GameMessage) × (m.session_id ≡ t.id)
        × (m.role ≡ MessageRole.assistant)
        × (w'.db ≡ with_message m (record w.db { sessions = save_session t w.db.sessions }))
        × (w'.cache ≡ w.cache)
  unfolding start_game read_clock draw_id save_session_row
  started u input w w' t h =
      let (c, s, fine) = open_game u input w w' t h in
      let (checked, same) = check_start_lem u input w (check_start svc u input w).1 c s fine in
      let t0 =
        new_session (svc.uuid7 w.ids) (svc.time w.clock) u c s
          (chosen_turns input.max_turns svc.game_max_turns) in
      let v : World svc.random.Gen svc.Stored = record w {
        clock = w.clock + 1;
        ids = w.ids + 1;
        db = record w.db { sessions = save_session t0 w.db.sessions };
      } in
      elim (outcomes (generate_initial_narrative svc t0 c s v)) [
        | inr (e, bad) ↦ grind arith
        | inl (done, told) ↦
            let (m, kept, cached, owner, role) =
              initial-keeps t0 c s v (generate_initial_narrative svc t0 c s v).1 told in
            let same_session : t ≡ t0 = grind arith in
            (
              c,
              s,
              checked,
              same_session,
              grind arith,
              m,
              owner ∙ ap (λ (x : GameSession). x.id) (sym same_session),
              role,
              grind arith,
              grind arith,
            )
      ]

  -- Where the new identifier is none of a session, a game that starts is for an active scenario and
  -- for a character of the user and of that scenario that had no running game. It is the session
  -- stored under the new identifier, active at turn 0 at the scenario's first place with no state,
  -- with the turns that were asked for or else the default; it is the running game of the
  -- character. Besides, one message of the game is added to the new session. No other session
  -- changes, nor does any other message, any character, scenario, memory or user, or the cache, and
  -- all of it is committed.
  pub start_game-Opens :
      (u : ℕ) (input : StartGameInput) (w w' : World svc.random.Gen svc.Stored) (t : GameSession)
      → find_session (svc.uuid7 w.ids) w.db.sessions ≡ none
      → start_game svc u input w ≡ (ok t, w')
      → Opens u input t w w'
  unfolding new_session chosen_turns
  start_game-Opens u input w w' t fresh h =
      let (c, s, checked, new, committed, m, owner, role, kept, cached) =
        started u input w w' t h in
      let saved : w'.db.sessions ≡ save_session t w.db.sessions = ap (λ db. db.sessions) kept in
      let named : c.id ≡ input.character_id =
        find_character-id input.character_id w.db.characters c checked.row in
      record {
        character = c;
        scenario = s;
        checked = checked;
        new = grind arith;
        stored = grind (arith, find_session-fresh t w.db.sessions);
        running = grind (arith, find_active-fresh t w.db.sessions, checked.idle);
        others = λ j other. grind (arith, find_session-other t j w.db.sessions other);
        committed = committed;
        people = (ap (λ db. db.characters) kept, ap (λ db. db.scenarios) kept);
        opening = m;
        opens = (owner, role);
        told = ap (λ db. db.messages) kept;
        rest = (ap (λ db. db.memories) kept, ap (λ db. db.users) kept, cached);
      }

  -- After a game has started, another start for the same character and scenario on the tables that
  -- the first left is refused because a game is running, whatever turns it asks for, and nothing
  -- changes.
  pub start_game_again :
      (u : ℕ) (input input' : StartGameInput) (w w' x : World svc.random.Gen svc.Stored)
      (t : GameSession)
      → find_session (svc.uuid7 w.ids) w.db.sessions ≡ none
      → start_game svc u input w ≡ (ok t, w')
      → input'.character_id ≡ input.character_id
      → input'.scenario_id ≡ input.scenario_id
      → x.db ≡ w'.db
      → start_game svc u input' x ≡ (raise already_active, x)
  unfolding start_game check_start owned_character playable_scenario
  start_game_again u input input' w w' x t fresh h same_character same_scenario kept =
      let o = start_game-Opens u input w w' t fresh h in
      let c = o.checked in
      let named : o.character.id ≡ input.character_id =
        find_character-id input.character_id w.db.characters o.character c.row in
      grind (arith, o.people, o.running, c.row, c.found, c.owned, c.playable, c.belongs)

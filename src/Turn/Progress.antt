-- ===== src/Turn/Progress.antt =====
-- What a turn does to its session, and that it writes outside the transaction only at its end.
use ai_saga.Common.{ℕ, ◌≡◌, Bool, Option, none, some, List, Text, arith}
use ai_saga.Values.{ActionType}
use ai_saga.Json.{Json}
use ai_saga.Entities.{GameMessage, GameMemory, Scenario}
use ai_saga.GameState.{StateChanges}
use ai_saga.Session.{GameSession, complete, update_game_state, update_location}
use ai_saga.Character.{CharacterEntity}
use ai_saga.Dice.{DiceResult}
use ai_saga.Store.Services.{Services, LlmResponse, Response, action, ending}
use ai_saga.Turn.Ensures.{Ensures, Anything}
use ai_saga.Turn.Frames.{
  read_clock-Ensures, generate_embedding-Ensures, generate_response-Ensures, create_message-Ensures,
  create_memory-Ensures, save_session_row-Ensures, save_character_row-Ensures, Ends,
  handle_death_ending-Ensures,
}
use ai_saga.Turn.Normal.{
  Told, Outcome, alive, dead, move_session, roll_for, update_character_row, check_death,
  follow_parsed, follow_text, follow, tell, finish, handle_normal_turn,
}

-- A session after changes of its world: place and state may differ.
pub record Goes (s t : GameSession) : Type 0 where
  pub id : t.id ≡ s.id
  pub turns : t.turn_count ≡ s.turn_count
  pub limit : t.max_turns ≡ s.max_turns
  pub status : t.status ≡ s.status

abbrev pub Follows : GameSession → Outcome → Type 0
Follows s (alive told) = Goes s told.session
Follows s (dead t (action a)) = ⊥
Follows s (dead t (ending e)) = Ends s t e

move_session-Goes :
    (now : ℕ) (changes : StateChanges) (s : GameSession)
    → Goes s (move_session changes.location (update_game_state now changes s))
unfolding move_session update_game_state update_location
move_session-Goes now changes s = ground arith

module _ (svc : Services) where
  roll_for-Ensures :
      (k : ActionType) (c : CharacterEntity) (sc : Scenario)
      → Ensures Anything (roll_for svc k c sc)
  unfolding roll_for
  roll_for-Ensures k c sc w = ground arith

  update_character_row-Ensures :
      (changes : StateChanges) (id : ℕ) → Ensures Anything (update_character_row svc changes id)
  unfolding update_character_row
  update_character_row-Ensures changes id w = grind (arith, save_character_row-Ensures svc)

  check_death-Ensures :
      (s : GameSession) (told : Told) (u : ℕ) (c : Option CharacterEntity)
      → Goes s told.session
      → Ensures (Follows s) (check_death svc told u c)
  unfolding check_death complete
  check_death-Ensures s told u none g w = ground arith
  check_death-Ensures s told u (some c) g w =
      grind (
        arith,
        read_clock-Ensures svc,
        save_session_row-Ensures svc,
        handle_death_ending-Ensures svc,
      )

  follow_parsed-Ensures :
      (s : GameSession) (u : ℕ) (should : Bool) (dice : Option DiceResult) (parsed : Json)
      (t : Text)
      → Ensures (Follows s) (follow_parsed svc s u should dice parsed t)
  unfolding follow_parsed
  follow_parsed-Ensures s u should dice parsed t w = grind (
    arith,
    read_clock-Ensures svc,
    update_character_row-Ensures,
    check_death-Ensures s,
    move_session-Goes,
  )

  follow-Ensures :
      (s : GameSession) (u : ℕ) (should : Bool) (dice : Option DiceResult) (parsed : Option Json)
      (t : Text)
      → Ensures (Follows s) (follow svc s u should dice parsed t)
  unfolding follow follow_text
  follow-Ensures s u should dice none t w = ground arith
  follow-Ensures s u should dice (some parsed) t w =
      ground (arith, follow_parsed-Ensures s u should dice parsed t w)

-- Whether a response ends the game.
abbrev pub IsEnding : Response → Type 0
IsEnding (action a) = ⊥
IsEnding (ending e) = Unit

-- The session that a turn hands on with its response.
abbrev pub Played : GameSession → GameSession × Response → Type 0
Played s (t, action a) = Goes s t × (a.turn_count ≡ s.turn_count) × (a.max_turns ≡ s.max_turns)
Played s (t, ending e) = Ends s t e

module _ (svc : Services) where
  tell-Ensures :
      (s : GameSession) (answer : LlmResponse) (dice : Option DiceResult) (told : Told)
      → Goes s told.session
      → Ensures (Played s) (tell svc answer dice told)
  unfolding tell
  tell-Ensures s answer dice told g w =
      grind (
        arith,
        create_message-Ensures svc,
        generate_embedding-Ensures svc,
        create_memory-Ensures svc,
      )

  finish-Ensures :
      (s : GameSession) (answer : LlmResponse) (dice : Option DiceResult) (o : Outcome)
      → Follows s o
      → Ensures (Played s) (finish svc answer dice o)
  unfolding finish
  finish-Ensures s answer dice (alive told) g w = tell-Ensures s answer dice told g w
  finish-Ensures s answer dice (dead t (action a)) g w = absurd g
  finish-Ensures s answer dice (dead t (ending e)) g w = ground arith

  pub handle_normal_turn-Ensures :
      (s : GameSession) (u : ℕ) (t : Text) (hint : Option Text) (history : List GameMessage)
      (recalled : List GameMemory)
      → Ensures (Played s) (handle_normal_turn svc s u t hint history recalled)
  unfolding handle_normal_turn
  handle_normal_turn-Ensures s u t hint history recalled w = grind (
    arith,
    roll_for-Ensures svc,
    generate_response-Ensures svc,
    follow-Ensures svc s,
    finish-Ensures s,
  )

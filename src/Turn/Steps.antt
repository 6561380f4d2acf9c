-- ===== src/Turn/Steps.antt =====
-- An accepted action moves its session on by one turn, to its end on the last one.
use ai_saga.Common.{
  ℕ, ◌+◌, ◌<◌, ◌≡◌, sym, ap, ◌∙◌, true, some, List, Text, ok, arith, Option-cases, Result-cases,
  inl, inr,
}
use ai_saga.Values.{SessionStatus}
use ai_saga.Entities.{GameMessage, GameMemory}
use ai_saga.Session.{GameSession, is_final_turn, advance_turn}
use ai_saga.Narrator.{should_end_game}
use ai_saga.Store.Tables.{find_session, save_session}
use ai_saga.Store.Rows.{find_session-id, Reads, find-save}
use ai_saga.Store.Monad.{World, ◌>>=◌, ◌>>◌, pure}
use ai_saga.Store.Services.{Services, Response, action, ending}
use ai_saga.Turn.Effects.{Act, read_clock, save_session_row}
use ai_saga.Turn.Ensures.{Ensures, Anything}
use ai_saga.Turn.Frames.{
  generate_embedding-Ensures, create_message-Ensures, create_memory-Ensures, handle_ending-Ensures,
}
use ai_saga.Turn.Progress.{Played, IsEnding, handle_normal_turn-Ensures}
use ai_saga.Turn.Execute.{ProcessActionInput, validate_session, record_action, play, run_turn}

advance_turn_lem :
    (now : ℕ) (s t : GameSession)
    → advance_turn now s ≡ ok t
    → (t.id ≡ s.id)
      × (t.turn_count ≡ s.turn_count + 1)
      × (t.max_turns ≡ s.max_turns)
      × (t.status ≡ s.status)
unfolding advance_turn
advance_turn_lem now s t h = ground arith

validate_session_lem :
    (s : GameSession) (u : ℕ)
    → validate_session s u ≡ ok tt
    → (s.user_id ≡ u) × (s.status ≡ SessionStatus.active) × (s.turn_count < s.max_turns)
unfolding validate_session
validate_session_lem s u h = ground arith

-- The last turn ends the game, any other one reports the session's turn.
abbrev PlayedLast : GameSession → GameSession × Response → Type 0
PlayedLast s (t, response) = Played s (t, response) × (is_final_turn s ≡ true → IsEnding response)

module _ (svc : Services) where
  record_action-Ensures : (s : GameSession) (t : Text) → Ensures Anything (record_action svc s t)
  unfolding record_action
  record_action-Ensures s t w =
      grind (
        arith,
        generate_embedding-Ensures svc,
        create_message-Ensures svc,
        create_memory-Ensures svc,
      )

  play-Ensures :
      (s : GameSession) (u : ℕ) (input : ProcessActionInput) (recent history : List GameMessage)
      (recalled : List GameMemory)
      → Ensures (PlayedLast s) (play svc s u input recent history recalled)
  unfolding play should_end_game
  play-Ensures s u input recent history recalled w = grind (
    arith,
    handle_ending-Ensures svc s recent u w,
    handle_normal_turn-Ensures svc s u input.action input.action_type history recalled w,
  )

  -- What a response says of the session's row.
  abbrev pub Tells : GameSession → Response → Type 0
  Tells r (action a) =
      (r.status ≡ SessionStatus.active)
      × (a.turn_count ≡ r.turn_count)
      × (a.max_turns ≡ r.max_turns)
      × (r.turn_count < r.max_turns)
  Tells r (ending e) =
      (r.status ≡ SessionStatus.completed)
      × (r.ending_type ≡ some e.ending_type)
      × (e.total_turns ≡ r.turn_count)
      × (e.session_id ≡ r.id)

  -- What an accepted action finds, and what it leaves behind.
  pub record Moves (input : ProcessActionInput) (u : ℕ) (response : Response)
      (w w' : World svc.random.Gen svc.Stored) : Type 0 where
    pub before : GameSession
    pub after : GameSession
    pub found : find_session input.session_id w.db.sessions ≡ some before
    pub owned : before.user_id ≡ u
    pub active : before.status ≡ SessionStatus.active
    pub left : before.turn_count < before.max_turns
    pub saved : find_session input.session_id w'.db.sessions ≡ some after
    pub turned : after.turn_count ≡ before.turn_count + 1
    pub limit : after.max_turns ≡ before.max_turns
    pub told : Tells after response

  PlayedLast-Tells :
      (s t r : GameSession) (response : Response)
      → s.status ≡ SessionStatus.active
      → PlayedLast s (t, response)
      → Reads t r
      → Tells r response
        × (r.turn_count ≡ s.turn_count)
        × (r.max_turns ≡ s.max_turns)
        × (t.id ≡ s.id)
  unfolding is_final_turn
  PlayedLast-Tells s t r (action a) active p reads = ground arith
  PlayedLast-Tells s t r (ending e) active p reads = ground arith

  -- The part of a turn after its session has moved on.
  abbrev rest : GameSession → ℕ → ProcessActionInput → Act svc Response
  rest advanced user_id input = do
    (recent, history, recalled) ← record_action svc advanced input.action
    (played, response) ← play svc advanced user_id input recent history recalled
    save_session_row svc played
    pure response

  rest-saves :
      (s : GameSession) (u : ℕ) (input : ProcessActionInput)
      (w w' : World svc.random.Gen svc.Stored) (response : Response)
      → rest s u input w ≡ (ok response, w')
      → (t : GameSession) × (ss : List GameSession) × PlayedLast s (t, response)
        × (w'.db.sessions ≡ save_session t ss)
  unfolding save_session_row
  rest-saves s u input w w' response h =
      grind (arith, record_action-Ensures s input.action, play-Ensures s u input)

  pub run_turn-Ensures :
      (u : ℕ) (input : ProcessActionInput) → Ensures Anything (run_turn svc u input)
  unfolding run_turn read_clock save_session_row
  run_turn-Ensures u input w = grind (arith, record_action-Ensures, play-Ensures)

  accepted :
      (u : ℕ) (input : ProcessActionInput) (w w' : World svc.random.Gen svc.Stored)
      (response : Response)
      → run_turn svc u input w ≡ (ok response, w')
      → (s : GameSession) × (t : GameSession) × (find_session input.session_id w.db.sessions
          ≡ some s)
        × (validate_session s u ≡ ok tt)
        × (advance_turn (svc.time w.clock) s ≡ ok t)
        × (rest t u input (record w { clock = w.clock + 1 }) ≡ (ok response, w'))
  unfolding run_turn read_clock
  accepted u input w w' response h =
      elim (Option-cases (find_session input.session_id w.db.sessions)) [
        | inl missing ↦ ground arith
        | inr (s, found) ↦ elim (Result-cases (advance_turn (svc.time w.clock) s)) [
          | inl (t, advanced) ↦ (s, t, found, grind arith, advanced, grind arith)
          | inr (e, stopped) ↦ ground arith
        ]
      ]

  -- An accepted action finds the session it names, owned by the user, active and with turns left.
  -- It leaves the session's row one turn further, with its turn limit. The session stays active
  -- with turns left if the response is one of play, which reports the row's turn count and limit;
  -- it is completed, with the ending, the identifier and the number of turns that the response
  -- reports, if the response is an ending.
  pub run_turn-Moves :
      (u : ℕ) (input : ProcessActionInput) (w w' : World svc.random.Gen svc.Stored)
      (response : Response)
      → run_turn svc u input w ≡ (ok response, w')
      → Moves input u response w w'
  run_turn-Moves u input w w' response h =
      let (s, t, found, valid, advanced, rested) = accepted u input w w' response h in
      let (p, ss, played, saved) =
        rest-saves t u input (record w { clock = w.clock + 1 }) w' response rested in
      let (r, kept, reads) = find-save p ss in
      let (owned, active, left) = validate_session_lem s u valid in
      let (same, turned, limit, status) = advance_turn_lem (svc.time w.clock) s t advanced in
      let (told, turns, limits, kept_id) =
        PlayedLast-Tells t p r response (status ∙ active) played reads in
      record {
        before = s;
        after = r;
        found = found;
        owned = owned;
        active = active;
        left = left;
        saved =
            ap (find_session input.session_id) saved
            ∙ ap (λ i. find_session i (save_session p ss))
                (sym (kept_id ∙ same ∙ find_session-id input.session_id w.db.sessions s found))
            ∙ kept;
        turned = turns ∙ turned;
        limit = limits ∙ limit;
        told = told;
      }

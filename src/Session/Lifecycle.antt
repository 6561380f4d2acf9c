-- ===== src/Session/Lifecycle.antt =====
-- The life of a session as a step relation: the methods of the entity, each at a time `now`.
use ai_saga.Common.{ℕ, ◌≤◌, ◌≡◌, refl, ◌∙◌, ◌≢◌, ◌↔◌, none, Text, ok, arith}
use ai_saga.Values.{SessionStatus, EndingType}
use ai_saga.GameState.{StateChanges}
use ai_saga.Session.{
  GameSession, advance_turn, complete, pause, resume, update_location, update_game_state,
}

-- One method call that does not raise.
pub data Step (s t : GameSession) : Type 0 where
  advance : (now : ℕ) → advance_turn now s ≡ ok t → Step s t
  finish : (now : ℕ) (ending : EndingType) → t ≡ complete now ending s → Step s t
  hold : pause s ≡ ok t → Step s t
  wake : (now : ℕ) → resume now s ≡ ok t → Step s t
  move : (place : Text) → t ≡ update_location place s → Step s t
  change : (now : ℕ) (changes : StateChanges) → t ≡ update_game_state now changes s → Step s t

pub data Reach (s : GameSession) : GameSession → Type 0 where
  here : Reach s s
  next : {t u : GameSession} → Reach s t → Step t u → Reach s u

-- An ending and an end time are set exactly on completed sessions, and `ended` is never used.
pub record IsSound (s : GameSession) : Type 0 where
  pub typed : (s.ending_type ≢ none) ↔ (s.status ≡ SessionStatus.completed)
  pub timed : (s.ended_at ≢ none) ↔ (s.status ≡ SessionStatus.completed)
  pub used : s.status ≢ SessionStatus.ended

Step-IsSound : (s t : GameSession) → Step s t → IsSound s → IsSound t
unfolding advance_turn complete pause resume update_location update_game_state
Step-IsSound s t (advance now h) v = ground arith
Step-IsSound s t (finish now ending h) v = ground arith
Step-IsSound s t (hold h) v = ground arith
Step-IsSound s t (wake now h) v = ground arith
Step-IsSound s t (move place h) v = ground arith
Step-IsSound s t (change now changes h) v = ground arith

-- What no call changes or undoes.
pub record Keeps (s t : GameSession) : Type 0 where
  pub id : t.id ≡ s.id
  pub user_id : t.user_id ≡ s.user_id
  pub character_id : t.character_id ≡ s.character_id
  pub scenario_id : t.scenario_id ≡ s.scenario_id
  pub max_turns : t.max_turns ≡ s.max_turns
  pub turns : s.turn_count ≤ t.turn_count
  pub done : s.status ≡ SessionStatus.completed → t.status ≡ SessionStatus.completed
  pub stopped : s.status ≡ SessionStatus.completed → t.turn_count ≡ s.turn_count

Step-Keeps : (s t : GameSession) → Step s t → Keeps s t
unfolding advance_turn complete pause resume update_location update_game_state
Step-Keeps s t (advance now h) = ground arith
Step-Keeps s t (finish now ending h) = ground arith
Step-Keeps s t (hold h) = ground arith
Step-Keeps s t (wake now h) = ground arith
Step-Keeps s t (move place h) = ground arith
Step-Keeps s t (change now changes h) = ground arith

Keeps-trans : (s t u : GameSession) → Keeps s t → Keeps t u → Keeps s u
Keeps-trans s t u k l = record {
  id = l.id ∙ k.id;
  user_id = l.user_id ∙ k.user_id;
  character_id = l.character_id ∙ k.character_id;
  scenario_id = l.scenario_id ∙ k.scenario_id;
  max_turns = l.max_turns ∙ k.max_turns;
  turns = omega arith;
  done = λ c. l.done (k.done c);
  stopped = λ c. l.stopped (k.done c) ∙ k.stopped c;
}

reach : {s t : GameSession} → IsSound s → Reach s t → IsSound t × Keeps s t
reach {s} v here = (
  v,
  record {
    id = refl;
    user_id = refl;
    character_id = refl;
    scenario_id = refl;
    max_turns = refl;
    turns = omega arith;
    done = λ c. c;
    stopped = λ c. refl;
  },
)
reach {s} {t} v (next {t = m} r st) =
    let (w, k) = reach v r in (Step-IsSound m t st w, Keeps-trans s m t k (Step-Keeps m t st))

-- Whatever methods are called in whatever order on a session whose ending and end time are set
-- exactly if it is completed: this stays so, the status is never `ended`, owner, character,
-- scenario and turn limit stay, the turn count never falls, and a completed session stays completed
-- at its turn count.
pub Reach-IsSound : (s t : GameSession) → IsSound s → Reach s t → IsSound t × Keeps s t
Reach-IsSound s t v r = reach v r

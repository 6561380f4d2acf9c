-- ===== src/Session.antt =====
-- Game sessions: app/game/domain/entities/game_session.py. Every method returns a new session;
-- `now` is what `get_utc_datetime` returns at the call.
pub mod Lifecycle
use ai_saga.Common.{
  ℕ, ◌+◌, ◌-◌, Bool, true, false, Option, none, some, eqb, leb, Text, Result, ok, raise, ◌>>◌,
  ◌>>=◌, raise_if, not, cannot_advance, cannot_pause, cannot_resume,
}
use ai_saga.Values.{SessionStatus, EndingType}
use ai_saga.GameState.{StateDict, StateChanges, apply_state_changes}

pub record GameSession : Type 0 where
  pub id : ℕ
  pub user_id : ℕ
  pub character_id : ℕ
  pub scenario_id : ℕ
  pub current_location : Text
  pub game_state : StateDict
  pub status : SessionStatus
  pub turn_count : ℕ
  pub max_turns : ℕ
  pub ending_type : Option EndingType
  pub started_at : ℕ
  pub ended_at : Option ℕ
  pub last_activity_at : ℕ

abbrev pub active_status : SessionStatus → Bool
active_status SessionStatus.active = true
active_status SessionStatus.paused = false
active_status SessionStatus.completed = false
active_status SessionStatus.ended = false

abbrev pub paused_status : SessionStatus → Bool
paused_status SessionStatus.paused = true
paused_status SessionStatus.active = false
paused_status SessionStatus.completed = false
paused_status SessionStatus.ended = false

unfoldable pub is_active : GameSession → Bool
is_active s = active_status s.status

unfoldable pub is_final_turn : GameSession → Bool
is_final_turn s = leb s.max_turns s.turn_count

unfoldable pub remaining_turns : GameSession → ℕ
remaining_turns s = s.max_turns - s.turn_count

unfoldable pub advance_turn : ℕ → GameSession → Result GameSession
unfolding is_active
advance_turn now s = do
  raise_if (not (is_active s)) cannot_advance
  ok (record s { turn_count = s.turn_count + 1; last_activity_at = now })

unfoldable pub complete : ℕ → EndingType → GameSession → GameSession
complete now ending s = record s {
  status = SessionStatus.completed;
  ending_type = some ending;
  ended_at = some now;
}

unfoldable pub pause : GameSession → Result GameSession
unfolding is_active
pause s = do
  raise_if (not (is_active s)) cannot_pause
  ok (record s { status = SessionStatus.paused })

unfoldable pub resume : ℕ → GameSession → Result GameSession
resume now s = do
  raise_if (not (paused_status s.status)) cannot_resume
  ok (record s { status = SessionStatus.active; last_activity_at = now })

unfoldable pub update_location : Text → GameSession → GameSession
update_location location s = record s { current_location = location }

unfoldable pub update_game_state : ℕ → StateChanges → GameSession → GameSession
update_game_state now changes s = record s {
  game_state = apply_state_changes s.game_state changes;
  last_activity_at = now;
}

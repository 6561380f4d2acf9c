-- ===== src/Turn/Refusals.antt =====
-- Which requests a turn refuses, and with which error.
use ai_saga.Common.{
  ℕ, ◌≤◌, ◌≡◌, ◌≢◌, refl, Option, none, some, raise, Error, arith, session_not_found,
  session_not_owned, session_completed, session_not_active, max_turns_reached,
}
use ai_saga.Values.{SessionStatus}
use ai_saga.Session.{GameSession}
use ai_saga.Store.Tables.{find_session}
use ai_saga.Store.Monad.{World}
use ai_saga.Store.Services.{Services}
use ai_saga.Turn.Execute.{ProcessActionInput, validate_session, run_turn}

-- The reasons to refuse a request, each with its error: the first that holds counts.
pub data Refused (u : ℕ) : Option GameSession → Error → Type 0 where
  missing : Refused u none session_not_found
  foreign : (s : GameSession) → s.user_id ≢ u → Refused u (some s) session_not_owned
  over :
      (s : GameSession)
      → s.user_id ≡ u
      → s.status ≡ SessionStatus.completed
      → Refused u (some s) session_completed
  asleep :
      (s : GameSession)
      → s.user_id ≡ u
      → s.status ≢ SessionStatus.completed
      → s.status ≢ SessionStatus.active
      → Refused u (some s) session_not_active
  spent :
      (s : GameSession)
      → s.user_id ≡ u
      → s.status ≡ SessionStatus.active
      → s.max_turns ≤ s.turn_count
      → Refused u (some s) max_turns_reached

module _ (svc : Services) where
  refuse :
      (u : ℕ) (input : ProcessActionInput) (w : World svc.random.Gen svc.Stored)
      (found : Option GameSession) (e : Error)
      → find_session input.session_id w.db.sessions ≡ found
      → Refused u found e
      → run_turn svc u input w ≡ (raise e, w)
  unfolding run_turn validate_session
  refuse u input w _ _ h missing = ground arith
  refuse u input w _ _ h (foreign s p) = ground arith
  refuse u input w _ _ h (over s p q) = ground arith
  refuse u input w _ _ h (asleep s p q r) = ground arith
  refuse u input w _ _ h (spent s p q r) = ground arith

  -- A request for a session that is missing, belongs to another user, is completed, is not active
  -- or has no turn left is refused with the error of the first of these reasons that holds, and
  -- nothing at all is written, read from the clock or asked of another service.
  pub run_turn-Refused :
      (u : ℕ) (input : ProcessActionInput) (w : World svc.random.Gen svc.Stored) (e : Error)
      → Refused u (find_session input.session_id w.db.sessions) e
      → run_turn svc u input w ≡ (raise e, w)
  run_turn-Refused u input w e r =
      refuse u input w (find_session input.session_id w.db.sessions) e refl r

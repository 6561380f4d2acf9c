-- ===== src/Turn/Plays.antt =====
-- A game as the sequence of its accepted turns.
use ai_saga.Common.{ℕ, suc, ◌+◌, ◌≤◌, ◌<◌, ◌≡◌, refl, sym, ap, ◌∙◌, some, ok, arith, ◌⊎◌, inl, inr}
use ai_saga.Values.{SessionStatus}
use ai_saga.Session.{GameSession}
use ai_saga.Store.Tables.{find_session}
use ai_saga.Store.Monad.{World}
use ai_saga.Store.Services.{Services, Response, action, ending}
use ai_saga.Turn.Steps.{Tells, run_turn-Moves}
use ai_saga.Turn.Execute.{ProcessActionInput, run_turn}

module _ (svc : Services) where
  -- The user plays a number of turns of a session, one after the other.
  pub data Plays (u i : ℕ) (w : World svc.random.Gen svc.Stored)
      : ℕ → World svc.random.Gen svc.Stored → Type 0 where
    start : Plays u i w 0 w
    turn :
        {n : ℕ} {v : World svc.random.Gen svc.Stored}
        → Plays u i w n v
        → (input : ProcessActionInput) (response : Response) (w' : World svc.random.Gen svc.Stored)
        → input.session_id ≡ i
        → run_turn svc u input v ≡ (ok response, w')
        → Plays u i w (suc n) w'

  -- What `n` turns have made of a session: it is active with turns left, or it is completed.
  pub record Advances (s : GameSession) (n : ℕ) (r : GameSession) : Type 0 where
    pub turns : r.turn_count ≡ s.turn_count + n
    pub limit : r.max_turns ≡ s.max_turns
    pub bounded : (n ≡ 0) ⊎ (s.turn_count + n ≤ s.max_turns)
    pub state :
        (n ≡ 0)
        ⊎ ((r.status ≡ SessionStatus.active) × (r.turn_count < r.max_turns))
        ⊎ (r.status ≡ SessionStatus.completed)

  Tells-state :
      (r : GameSession) (response : Response)
      → Tells svc r response
      → ((r.status ≡ SessionStatus.active) × (r.turn_count < r.max_turns))
        ⊎ (r.status ≡ SessionStatus.completed)
  Tells-state r (action a) (active, same, limit, left) = inl (active, left)
  Tells-state r (ending e) (done, ended, total, named) = inr done

  some_injective : (a b : GameSession) → some a ≡ some b → a ≡ b
  some_injective a b h = ground arith

  -- However many turns of a session a user plays, each counts as one, the limit stays, and there are
  -- no more of them than the limit leaves: after any turn the session is active with turns left, or
  -- it is completed. So the turn that reaches the limit has ended the game.
  pub Plays-Advances :
      (u i : ℕ) (w : World svc.random.Gen svc.Stored) (s : GameSession)
      → find_session i w.db.sessions ≡ some s
      → (n : ℕ) (w' : World svc.random.Gen svc.Stored) → Plays u i w n w'
      → (r : GameSession) × (find_session i w'.db.sessions ≡ some r) × Advances s n r
  Plays-Advances u i w s found _ _ start =
      (s, found, record { turns = omega arith; limit = refl; bounded = inl refl; state = inl refl })
  Plays-Advances u i w s found _ _ (turn {n = n} {v = v} plays input response w' named h) =
      let (r, known, before) = Plays-Advances u i w s found n v plays in
      let m = run_turn-Moves svc u input v w' response h in
      let same : m.before ≡ r =
        some_injective m.before r
          (sym m.found ∙ ap (λ j. find_session j v.db.sessions) named ∙ known) in
      let counted : m.before.turn_count ≡ s.turn_count + n =
        ap (λ (x : GameSession). x.turn_count) same ∙ before.turns in
      let limited : m.before.max_turns ≡ s.max_turns =
        ap (λ (x : GameSession). x.max_turns) same ∙ before.limit in
      let left = m.left in
      let turned = m.turned in
      let limit = m.limit in
      (
        m.after,
        ap (λ j. find_session j w'.db.sessions) (sym named) ∙ m.saved,
        record {
          turns = omega arith;
          limit = limit ∙ limited;
          bounded = inr (omega arith);
          state = inr (Tells-state m.after response m.told);
        },
      )

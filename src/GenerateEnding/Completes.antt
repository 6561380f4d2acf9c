-- ===== src/GenerateEnding/Completes.antt =====
-- What ending a game outside a turn leaves behind.
use ai_saga.Common.{
  ℕ, ◌≡◌, ◌≢◌, ◌⊎◌, inl, inr, sym, ap, ◌∙◌, none, some, true, false, Option, Option-cases,
  Bool-cases, Result-cases, List, [], ◌∷◌, ◌++◌, ok, arith,
}
use ai_saga.Values.{SessionStatus, ScenarioDifficulty}
use ai_saga.Entities.{GameMessage}
use ai_saga.Session.{GameSession, complete}
use ai_saga.Progression.{
  calculate_game_xp, UserProgressionResult, User, find_user, award, award_game_experience,
}
use ai_saga.Store.Tables.{find_session, save_session}
use ai_saga.Store.Rows.{find_session-id, find-save, find_session-other}
use ai_saga.Store.Monad.{World}
use ai_saga.Store.Services.{Services, EndingResponse}
use ai_saga.Turn.Effects.{read_clock, generate_response, create_message, save_session_row}
use ai_saga.Turn.Endings.{ending_response}
use ai_saga.GenerateEnding.{
  running, award_normal, try_award_normal, generate_ending_narrative, generate_ending,
}

module _ (svc : Services) where
  -- What the user `u` gets for an ending after so many turns, and what the response says of it: the
  -- award to the user's row, or nothing where no progress is tracked or the user has no row.
  abbrev pub Awarded : ℕ → ℕ → EndingResponse → List User → List User → Type 0
  Awarded u turns r before after =
      ((svc.tracks_progress ≡ true)
        × (told : UserProgressionResult) × (award_game_experience u r.xp_gained before
            ≡ ok (after, told))
        × (r.xp_gained ≡ calculate_game_xp r.ending_type turns ScenarioDifficulty.normal)
        × (r.new_game_level ≡ told.game_level)
        × (r.leveled_up ≡ told.leveled_up)
        × (r.levels_gained ≡ told.levels_gained))
      ⊎ (((svc.tracks_progress ≡ false) ⊎ (find_user u before ≡ none))
          × (r.xp_gained ≡ 0)
          × (after ≡ before)
          × (r.new_game_level ≡ 1)
          × (r.leveled_up ≡ false)
          × (r.levels_gained ≡ 0))

  -- What the ending of the session `i` for the user `u` has found and leaves.
  pub record Completes (u i : ℕ) (r : EndingResponse) (w w' : World svc.random.Gen svc.Stored)
      : Type 0 where
    pub before : GameSession
    pub after : GameSession
    pub message : GameMessage
    pub found : find_session i w.db.sessions ≡ some before
    pub active : before.status ≡ SessionStatus.active
    pub saved : find_session i w'.db.sessions ≡ some after
    pub done : after.status ≡ SessionStatus.completed
    pub ending : after.ending_type ≡ some r.ending_type
    pub turns : (after.turn_count ≡ before.turn_count) × (r.total_turns ≡ before.turn_count)
    pub named : r.session_id ≡ i
    pub others : (j : ℕ) → j ≢ i → find_session j w'.db.sessions ≡ find_session j w.db.sessions
    pub told : w'.db.messages ≡ w.db.messages ++ message ∷ []
    pub content : (message.session_id ≡ i) × (message.content ≡ r.narrative)
    pub gained : Awarded u before.turn_count r w.db.users w'.db.users
    pub rest :
        (w'.db.memories ≡ w.db.memories)
        × (w'.db.characters ≡ w.db.characters)
        × (w'.db.scenarios ≡ w.db.scenarios)
        × (w'.cache ≡ w.cache)

  narrated :
      (s : GameSession) (recent : List GameMessage) (u : ℕ) (r : EndingResponse)
      (w w' : World svc.random.Gen svc.Stored)
      → generate_ending_narrative svc s recent u w ≡ (ok r, w')
      → (m : GameMessage) × (w'.db.sessions
          ≡ save_session (complete (svc.time w.clock) r.ending_type s) w.db.sessions)
        × (w'.db.messages ≡ w.db.messages ++ m ∷ [])
        × (m.session_id ≡ s.id)
        × (m.content ≡ r.narrative)
        × (r.session_id ≡ s.id)
        × (r.total_turns ≡ s.turn_count)
  unfolding generate_ending_narrative generate_response read_clock create_message save_session_row
      try_award_normal award_normal ending_response complete
  narrated s recent u r w w' h = grind (arith)

  narrated-Awarded :
      (s : GameSession) (recent : List GameMessage) (u : ℕ) (r : EndingResponse)
      (w w' : World svc.random.Gen svc.Stored)
      → generate_ending_narrative svc s recent u w ≡ (ok r, w')
      → Awarded u s.turn_count r w.db.users w'.db.users
  unfolding generate_ending_narrative generate_response read_clock create_message save_session_row
      try_award_normal award_normal ending_response complete award_game_experience
  narrated-Awarded s recent u r w w' h = elim (Bool-cases svc.tracks_progress) [
    | inr off ↦ inr (inl off, grind arith, grind arith, grind arith, grind arith, grind arith)
    | inl on ↦ elim (Option-cases (find_user u w.db.users)) [
      | inl unknown ↦
          inr (inr unknown, grind arith, grind arith, grind arith, grind arith, grind arith)
      | inr (v, known) ↦ inl (
        on,
        (award v r.xp_gained).1,
        grind arith,
        grind arith,
        grind arith,
        grind arith,
        grind arith,
      )
    ]
  ]

  narrated-rest :
      (s : GameSession) (recent : List GameMessage) (u : ℕ) (r : EndingResponse)
      (w w' : World svc.random.Gen svc.Stored)
      → generate_ending_narrative svc s recent u w ≡ (ok r, w')
      → (w'.db.memories ≡ w.db.memories)
        × (w'.db.characters ≡ w.db.characters)
        × (w'.db.scenarios ≡ w.db.scenarios)
        × (w'.cache ≡ w.cache)
  unfolding generate_ending_narrative generate_response read_clock create_message save_session_row
      try_award_normal award_normal
  narrated-rest s recent u r w w' h = grind arith

  running_lem :
      (f : Option GameSession) (s : GameSession)
      → running f ≡ ok s
      → (f ≡ some s) × (s.status ≡ SessionStatus.active)
  unfolding running
  running_lem f s h = ground arith

  accepted :
      (u i : ℕ) (r : EndingResponse) (w w' : World svc.random.Gen svc.Stored)
      → generate_ending svc u i w ≡ (ok r, w')
      → (s : GameSession) × (running (find_session i w.db.sessions) ≡ ok s)
        × (generate_ending_narrative svc s (svc.recent_messages w.db.messages s.id 10) u w
            ≡ (ok r, w'))
  unfolding generate_ending
  accepted u i r w w' h = elim (Result-cases (running (find_session i w.db.sessions))) [
    | inl (s, fine) ↦ (s, fine, grind arith)
    | inr (e, bad) ↦ ground arith
  ]

  -- An ending that is generated has found the session active. It leaves the session's row completed
  -- with the ending that the response reports and the turns it had, leaves every other session as
  -- it was, and adds one message to the session, which holds the narrative of the response. Where
  -- progress is tracked and the user has a row, that row gets what the ending and the turns are
  -- worth at normal difficulty, and the response reports it with the level that comes of it;
  -- otherwise no user's row changes and it reports no experience, level 1 and no climb. Memories,
  -- characters, scenarios and the cache stay. None of this asks whose the session is.
  pub generate_ending-Completes :
      (u i : ℕ) (r : EndingResponse) (w w' : World svc.random.Gen svc.Stored)
      → generate_ending svc u i w ≡ (ok r, w')
      → Completes u i r w w'
  unfolding complete
  generate_ending-Completes u i r w w' h =
      let (s, fine, rest) = accepted u i r w w' h in
      let (found, active) = running_lem (find_session i w.db.sessions) s fine in
      let named = find_session-id i w.db.sessions s found in
      let (m, saved, told, owner, content, owned, total) =
        narrated s (svc.recent_messages w.db.messages s.id 10) u r w w' rest in
      let t = complete (svc.time w.clock) r.ending_type s in
      let (row, kept, reads) = find-save t w.db.sessions in
      record {
        before = s;
        after = row;
        message = m;
        found = found;
        active = active;
        saved =
            ap (find_session i) saved
            ∙ ap (λ j. find_session j (save_session t w.db.sessions)) (sym named)
            ∙ kept;
        done = reads.status;
        ending = reads.ending_type;
        turns = (reads.turns, total);
        named = owned ∙ named;
        others = λ j other.
            ap (find_session j) saved
            ∙ find_session-other t j w.db.sessions (λ e. other (e ∙ named));
        told = told;
        content = (owner ∙ named, content);
        gained = narrated-Awarded s (svc.recent_messages w.db.messages s.id 10) u r w w' rest;
        rest = narrated-rest s (svc.recent_messages w.db.messages s.id 10) u r w w' rest;
      }

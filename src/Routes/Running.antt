-- ===== src/Routes/Running.antt =====
-- Starts of a game while another of the character runs.
use ai_saga.Common.{
  ℕ, ◌≡◌, ◌∙◌, sym, refl, ap, none, some, inl, inr, Result-cases, Text, text, Error, raise, Option,
  ok, arith, already_active,
}
use ai_saga.Session.{GameSession}
use ai_saga.Python.{Python}
use ai_saga.Strings.{occurs, starts_with}
use ai_saga.Store.Tables.{find_session}
use ai_saga.Store.Monad.{World}
use ai_saga.Store.Services.{Services}
use ai_saga.Start.{StartGameInput, start_game}
use ai_saga.SessionHistory.{SessionDetailResult}
use ai_saga.Routes.{reply, refusal, locked, value_error_text, refuse_with, respond}
use ai_saga.Routes.Refusals.{LowersAscii, respond-raise}
use ai_saga.Start.Opens.{start_game_again}
use ai_saga.Turn.Execute.{cached}
use ai_saga.Routes.Game.{
  Web, given_key, replay_key, replayed, start_refusal, keep_start, start_now, start_and_keep, or_do,
  start_keyed, start_by_key, start_game_route,
}

start_refusal_lem :
    (py : Python) (said : Error → Text)
    → LowersAscii py
    → refuse_with said (start_refusal py) already_active
      ≡ (409, text "Character already has an active session")
unfolding refuse_with value_error_text start_refusal occurs starts_with
start_refusal_lem py said low = rw (low (text "Character already has an active session") refl) refl

module _ (svc : Services) (web : Web svc) where
  abbrev Base : Type 0
  Base = World svc.random.Gen svc.Stored

  -- The cache has no answer to a start with the key, if there is one.
  abbrev pub Unanswered : ℕ → Option Text → Base → Type 0
  Unanswered u none w = Unit
  Unanswered u (some k) w = cached svc (replay_key svc web u k) w ≡ (ok none, w)

  replayed-none :
      (u : ℕ) (k : Text) (input : StartGameInput) (w : Base)
      → Unanswered u (some k) w
      → replayed svc web (replay_key svc web u k) input w ≡ (ok none, w)
  unfolding replayed
  replayed-none u k input w h = grind arith

  -- What a start comes to that the cache does not answer, where no other request comes between.
  start_keyed-Unanswered :
      (u : ℕ) (input : StartGameInput) (k : Text) (w : Base)
      → Unanswered u (some k) w
      → start_by_key svc web u input (some k) (some (λ x. x)) w
        ≡ start_and_keep svc web u input (replay_key svc web u k) w
  unfolding start_by_key start_keyed or_do locked
  start_keyed-Unanswered u input k w h = let bare = replayed-none u k input w h in grind arith

  by_key-raise :
      (u : ℕ) (input : StartGameInput) (key : Option Text) (e : Error) (w : Base)
      → Unanswered u key w
      → start_game svc u input w ≡ (raise e, w)
      → start_by_key svc web u input key (some (λ x. x)) w ≡ (raise e, w)
  unfolding start_by_key start_now start_and_keep locked
  by_key-raise u input none e w free h = grind arith
  by_key-raise u input (some k) e w free h =
      let ran = start_keyed-Unanswered u input k w free in grind arith

  -- What a start has run that was answered, but not from the cache.
  by_key-ok :
      (u : ℕ) (input : StartGameInput) (key : Option Text) (r : SessionDetailResult) (w w' : Base)
      → Unanswered u key w
      → start_by_key svc web u input key (some (λ x. x)) w ≡ (ok r, w')
      → (t : GameSession) × (v : Base) × (start_game svc u input w ≡ (ok t, v)) × (w'.db ≡ v.db)
  unfolding start_by_key start_now start_and_keep keep_start locked
  by_key-ok u input none r w w' free h = elim (Result-cases (start_game svc u input w).0) [
    | inr (e, bad) ↦ ground arith
    | inl (t, fine) ↦ (t, (start_game svc u input w).1, grind arith, grind arith)
  ]
  by_key-ok u input (some k) r w w' free h =
      let ran = sym (start_keyed-Unanswered u input k w free) ∙ h in
      elim (Result-cases (start_game svc u input w).0) [
        | inr (e, bad) ↦ ground arith
        | inl (t, fine) ↦ (t, (start_game svc u input w).1, grind arith, grind arith)
      ]

  -- What an answered request has run.
  answered :
      (u : ℕ) (input : StartGameInput) (key : Option Text) (r : SessionDetailResult) (w w' : Base)
      → Unanswered u (given_key key) w
      → start_game_route svc web u input key (some (λ x. x)) w ≡ (reply 201 r, w')
      → (t : GameSession) × (v : Base) × (start_game svc u input w ≡ (ok t, v))
        × (w'.db ≡ v.db)
        × (w'.committed ≡ w'.db)
  unfolding start_game_route respond
  answered u input key r w w' free h =
      let ran = start_by_key svc web u input (given_key key) (some (λ x. x)) w in
      elim (Result-cases ran.0) [
        | inr (e, bad) ↦ ground arith
        | inl (r', fine) ↦
            let (t, v, started, kept) =
              by_key-ok u input (given_key key) r' w ran.1 free (grind arith) in
            let left : w' ≡ record (ran.1) { committed = ran.1.db } = grind arith in
            (t, v, started, ap (λ x. x.db) left ∙ kept, rw left refl)
      ]

  -- Once a request to start a game has been answered, another of the user's for the same character
  -- and scenario is refused with the status of a conflict and nothing changes, whatever keys the two
  -- have, as long as neither is answered from the cache. The identifier drawn first must be new, and
  -- no other request come between.
  pub start_game_route-running :
      (u : ℕ) (input input' : StartGameInput) (key key' : Option Text) (r : SessionDetailResult)
      (w w' : Base)
      → LowersAscii svc.python
      → find_session (svc.uuid7 w.ids) w.db.sessions ≡ none
      → Unanswered u (given_key key) w
      → start_game_route svc web u input key (some (λ x. x)) w ≡ (reply 201 r, w')
      → input'.character_id ≡ input.character_id
      → input'.scenario_id ≡ input.scenario_id
      → Unanswered u (given_key key') w'
      → start_game_route svc web u input' key' (some (λ x. x)) w'
        ≡ (refusal 409 (text "Character already has an active session"), w')
  unfolding start_game_route
  start_game_route-running u input input' key key' r w w' low fresh free h same_character
        same_scenario free' =
      let (t, v, started, kept, settled) = answered u input key r w w' free h in
      let running = by_key-raise u input' (given_key key') already_active w' free' (
        start_game_again svc u input input' w v w' t fresh started same_character same_scenario
          kept) in
      respond-raise svc (refuse_with web.said (start_refusal svc.python)) 201
        (start_by_key svc web u input' (given_key key') (some (λ x. x))) already_active 409
        (text "Character already has an active session") w' running settled
        (start_refusal_lem svc.python web.said low)

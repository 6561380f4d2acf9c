-- ===== src/Routes/Refusals.antt =====
-- How the routes refuse requests that the use cases raise on.
use ai_saga.Common.{
  ℕ, ◌≡◌, ◌+◌, refl, true, ◌&&◌, Option, none, some, [], ◌∷◌, map, if◌then◌else◌, leb, ltb, Text,
  text, Error, raise, ok, Bool, arith, session_not_found, session_not_owned, session_completed,
  session_not_active,
}
use ai_saga.Python.{Python}
use ai_saga.Strings.{occurs, starts_with}
use ai_saga.Store.Tables.{find_session}
use ai_saga.Store.Monad.{World, in_transaction}
use ai_saga.Store.Services.{Services}
use ai_saga.Turn.Execute.{ProcessActionInput, cached, cache_key, take_turn, execute}
use ai_saga.Turn.Effects.{Act}
use ai_saga.Turn.Refusals.{Refused, run_turn-Refused}
use ai_saga.Routes.{refusal, Refusal, reply, locked, value_error_text, refuse_with, respond}
use ai_saga.Routes.Game.{Web, given_key, action_refusal, submit_action}

abbrev pub is_ascii : Text → Bool
is_ascii [] = true
is_ascii (c ∷ cs) = ltb c 128 && is_ascii cs

abbrev pub lower_letter : ℕ → ℕ
lower_letter c = if leb 65 c && leb c 90 then c + 32 else c

-- `str.lower` of a text of ASCII letters.
abbrev pub LowersAscii : Python → Type 0
LowersAscii py = (t : Text) → is_ascii t ≡ true → py.lower t ≡ map lower_letter t

-- The refusal that stands for an error of a turn.
pub data StandsFor : Error → ℕ → Text → Type 0 where
  missing : StandsFor session_not_found 404 (text "Session not found")
  foreign : StandsFor session_not_owned 403 (text "Session does not belong to current user")
  over :
      StandsFor session_completed 409
        (text "Session is already completed. Cannot process further actions.")
  asleep : StandsFor session_not_active 409 (text "Session is not in active state")

action_refusal_lem :
    (py : Python) (said : Error → Text) (e : Error) (code : ℕ) (t : Text)
    → LowersAscii py
    → StandsFor e code t
    → refuse_with said (action_refusal py) e ≡ (code, t)
unfolding refuse_with value_error_text action_refusal occurs starts_with
action_refusal_lem py said _ _ _ low missing = rw (low (text "Session not found") refl) refl
action_refusal_lem py said _ _ _ low foreign =
    rw (low (text "Session does not belong to user") refl) refl
action_refusal_lem py said _ _ _ low over =
    rw (low (text "Session is already completed. Cannot process further actions.") refl) refl
action_refusal_lem py said _ _ _ low asleep =
    rw (low (text "Session is not in active state") refl) refl

module _ (svc : Services) where
  abbrev Base : Type 0
  Base = World svc.random.Gen svc.Stored

  pub respond-ok :
      {A : Type 0} (refuse : Error → Refusal) (status : ℕ) (m : Act svc A) (a : A) (w : Base)
      → m w ≡ (ok a, w)
      → w.committed ≡ w.db
      → respond refuse status (in_transaction m) w ≡ (reply status a, w)
  unfolding respond
  respond-ok refuse status m a w h settled = grind arith

  pub respond-raise :
      {A : Type 0} (refuse : Error → Refusal) (status : ℕ) (m : Act svc A) (e : Error) (code : ℕ)
      (t : Text) (w : Base)
      → m w ≡ (raise e, w)
      → w.committed ≡ w.db
      → refuse e ≡ (code, t)
      → respond refuse status (in_transaction m) w ≡ (refusal code t, w)
  unfolding respond
  respond-raise refuse status m e code t w h settled told = grind arith

module _ (svc : Services) (web : Web svc) where
  abbrev request : ℕ → Text → Option Text → Text → ProcessActionInput
  request session_id action hint key = record {
    session_id = session_id;
    action = action;
    action_type = hint;
    idempotency_key = key;
  }

  -- A request that the cache does not answer is refused as the turn is.
  execute-raise :
      (u : ℕ) (input : ProcessActionInput) (e : Error) (w : World svc.random.Gen svc.Stored)
      → cached svc (cache_key svc input) w ≡ (ok none, w)
      → Refused u (find_session input.session_id w.db.sessions) e
      → execute svc u input w ≡ (raise e, w)
  unfolding execute take_turn
  execute-raise u input e w bare r = grind (arith, run_turn-Refused svc u input w e r)

  -- An action that the cache does not answer, on a session that is missing, another user's,
  -- completed or not active, is answered with the status and the message of the first of these
  -- reasons that holds, and rolled back: nothing is left but what was committed before.
  pub submit_action-Refused :
      (u session_id : ℕ) (action : Text) (hint : Option Text) (c : ℕ) (cs : Text)
      (meanwhile : World svc.random.Gen svc.Stored → World svc.random.Gen svc.Stored)
      (w v : World svc.random.Gen svc.Stored) (e : Error) (code : ℕ) (t : Text)
      → LowersAscii svc.python
      → v ≡ meanwhile w
      → cached svc (cache_key svc (request session_id action hint (c ∷ cs))) v ≡ (ok none, v)
      → Refused u (find_session session_id v.db.sessions) e
      → StandsFor e code t
      → submit_action svc web u session_id action hint (some (c ∷ cs)) (some meanwhile) w
        ≡ (refusal code t, record v { db = v.committed })
  unfolding submit_action respond locked given_key
  submit_action-Refused u session_id action hint c cs meanwhile w v e code t low now bare r stands =
      let raised = execute-raise u (request session_id action hint (c ∷ cs)) e v bare r in
      let told = action_refusal_lem svc.python web.said e code t low stands in grind arith

-- ===== src/Examples/Routed.antt =====
-- Requests to the routes of the small world.
use ai_saga.Common.{
  ℕ, ◌≡◌, refl, false, Option, none, some, [], ◌∷◌, map, text, ok, arith, session_not_owned,
}
use ai_saga.Store.Tables.{find_session, find_character, find_scenario, find_active}
use ai_saga.Store.Monad.{World}
use ai_saga.Store.Services.{Services, CacheEntry}
use ai_saga.Start.{
  StartGameInput, check_start, owned_character, playable_scenario, generate_initial_narrative,
  start_game,
}
use ai_saga.Turn.Effects.{read_clock, draw_id, save_session_row, generate_response, create_message}
use ai_saga.Turn.Execute.{cached, cache_key}
use ai_saga.Turn.Refusals as TurnRefusals
use ai_saga.SessionHistory.{SessionDetailResult}
use ai_saga.Routes.{reply, refusal, locked, respond}
use ai_saga.Routes.Game.{
  Web, StartEntry, given_key, start_by_key, start_keyed, replayed, or_do, start_and_keep, start_now,
  start_game_route, submit_action, keep_start,
}
use ai_saga.Routes.Refusals
use ai_saga.Routes.Replays
use ai_saga.Routes.Running
use ai_saga.SessionList.Listed
use ai_saga.Examples.Setup.{services, session, db}

-- What the cache holds: an answered action or a started game.
data Cell : Type 0 where
  acted : CacheEntry → Cell
  begun : StartEntry → Cell

abbrev acted_in : Cell → Option CacheEntry
acted_in (acted e) = some e
acted_in (begun e) = none

abbrev begun_in : Cell → Option StartEntry
begun_in (acted e) = none
begun_in (begun e) = some e

abbrev routed : Services
routed = record services {
  python = record services.python { lower = map Refusals.lower_letter };
  Stored = Cell;
  is_blank = λ _. false;
  encode = acted;
  decode = acted_in;
  decode-encode = λ _. refl;
  is_blank-encode = λ _. refl;
}

abbrev web : Web routed
web = record {
  encode_start = begun;
  decode_start = begun_in;
  start_digest =
      λ i. i.character_id ∷ i.scenario_id ∷ (elim i.max_turns [ none ↦ [] | some n ↦ n ∷ [] ]);
  said = λ _. text "said";
  decode_start-encode = λ _. refl;
  is_blank-encode_start = λ _. refl;
}

lowers : Refusals.LowersAscii routed.python
lowers t h = refl

abbrev small : World ℕ Cell
small = record { db = db; committed = db; cache = []; clock = 0; ids = 0; calls = 0; gen = 0 }

foreign_user :
    Refusals.StandsFor session_not_owned 403 (text "Session does not belong to current user")
foreign_user = Refusals.foreign

not_hers : TurnRefusals.Refused 8 (find_session 1 small.db.sessions) session_not_owned
unfolding find_session
not_hers = TurnRefusals.foreign session (λ h. omega arith)

not_cached :
    cached routed
      (cache_key routed (record {
        session_id = 1;
        action = text "look";
        action_type = none;
        idempotency_key = text "k";
      }))
      small
    ≡ (ok none, small)
unfolding cached
not_cached = refl

submit_action-Refused_example :
    submit_action routed web 8 1 (text "look") none (some (text "k")) (some (λ w. w)) small
    ≡ (refusal 403 (text "Session does not belong to current user"), small)
submit_action-Refused_example =
    Refusals.submit_action-Refused routed web 8 1 (text "look") none 107 [] (λ w. w) small small
      session_not_owned 403 (text "Session does not belong to current user") lowers refl not_cached
      not_hers foreign_user

abbrev start : StartGameInput
start = record { character_id = 3; scenario_id = 2; max_turns = none }

abbrev longer : StartGameInput
longer = record start { max_turns = some 9 }

abbrev quiet : World ℕ Cell
quiet = record small { db = record db { sessions = [] }; committed = record db { sessions = [] } }

keyed :
    (r : SessionDetailResult) × (w' : World ℕ Cell) × (start_game_route routed web 7 start
        (some (text "k"))
        (some (λ w. w))
        quiet
      ≡ (reply 201 r, w'))
unfolding start_game_route respond given_key start_by_key start_keyed replayed cached or_do locked
    start_and_keep start_now start_game check_start owned_character find_character playable_scenario
    find_scenario find_active read_clock draw_id save_session_row generate_initial_narrative
    generate_response create_message keep_start
keyed = (_, _, refl)

start_game_route_replays_example :
    start_game_route routed web 7 start (some (text "k")) none keyed.1
    ≡ (reply 201 keyed.0, keyed.1)
start_game_route_replays_example =
    Replays.start_game_route_replays routed web 7 start 107 [] (some (λ w. w)) none keyed.0 quiet
      keyed.1 keyed.2

no_session : find_session (routed.uuid7 quiet.ids) quiet.db.sessions ≡ none
unfolding find_session
no_session = refl

not_answered : Running.Unanswered routed web 7 (given_key (some (text "k"))) quiet
unfolding given_key cached
not_answered = refl

other_key : Running.Unanswered routed web 7 (given_key (some (text "l"))) keyed.1
unfolding keyed start_game_route respond given_key start_by_key start_keyed replayed cached or_do
    locked start_and_keep start_now start_game check_start owned_character find_character
    playable_scenario find_scenario find_active read_clock draw_id save_session_row
    generate_initial_narrative generate_response create_message keep_start
other_key = refl

start_game_route-running_example :
    start_game_route routed web 7 longer (some (text "l")) (some (λ w. w)) keyed.1
    ≡ (refusal 409 (text "Character already has an active session"), keyed.1)
start_game_route-running_example =
    Running.start_game_route-running routed web 7 start longer (some (text "k")) (some (text "l"))
      keyed.0 quiet keyed.1 lowers no_session not_answered keyed.2 refl refl other_key

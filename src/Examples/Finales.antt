-- ===== src/Examples/Finales.antt =====
-- A game that is ended outside a turn, in the small world.
use ai_saga.Common.{ℕ, ◌≡◌, refl, ok}
use ai_saga.Store.Monad.{World}
use ai_saga.Store.Services.{EndingResponse, CacheEntry}
use ai_saga.Store.Tables.{find_session}
use ai_saga.Session.{is_active}
use ai_saga.Strings.{occurs}
use ai_saga.Narrator.{extract_narrative_from_ending}
use ai_saga.Progression.{award_game_experience, find_user}
use ai_saga.Turn.Effects.{read_clock, generate_response, create_message, save_session_row}
use ai_saga.Turn.Endings.{ending_response}
use ai_saga.GenerateEnding.{
  running, award_normal, try_award_normal, generate_ending_narrative, generate_ending,
}
use ai_saga.GenerateEnding.Completes
use ai_saga.Examples.Setup.{services, world}

ended :
    (r : EndingResponse) × (w' : World ℕ CacheEntry) × (generate_ending services 8 1 world
      ≡ (ok r, w'))
unfolding running award_normal try_award_normal generate_ending_narrative generate_ending
    find_session read_clock generate_response create_message save_session_row ending_response
    is_active extract_narrative_from_ending occurs award_game_experience find_user
ended = (_, _, refl)

generate_ending-Completes_example : Completes.Completes services 8 1 ended.0 world ended.1
generate_ending-Completes_example =
    Completes.generate_ending-Completes services 8 1 ended.0 world ended.1 ended.2

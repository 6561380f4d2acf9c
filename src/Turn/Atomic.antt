-- ===== src/Turn/Atomic.antt =====
-- A turn is all or nothing: what a refused request leaves, and what an answered one commits.
use ai_saga.Common.{ℕ, ◌≡◌, some, insert, Result, ok, raise, arith}
use ai_saga.Store.Monad.{World, in_transaction}
use ai_saga.Common.{if◌then◌else◌}
use ai_saga.Store.Services.{Services, Response, CacheEntry}
use ai_saga.Turn.Steps.{run_turn-Ensures}
use ai_saga.Turn.Execute.{
  ProcessActionInput, ProcessActionResult, replay, compute_action_payload_hash, cache_key, cached,
  cache_response, run_turn, take_turn, answer_cached, execute,
}

module _ (svc : Services) where
  -- The entry that is written for a response.
  abbrev entry : ProcessActionInput → Response → CacheEntry
  entry input response = record {
    response = response;
    payload_hash = some (compute_action_payload_hash svc input.action input.action_type);
  }

  -- What a request leaves: a refusal leaves the committed data and the cache as they were, and so
  -- does a cached answer; a fresh one commits what the turn wrote and caches its response.
  abbrev pub Leaves :
      (u : ℕ)
      → ProcessActionInput
      → World svc.random.Gen svc.Stored
      → Result ProcessActionResult
      → World svc.random.Gen svc.Stored
      → Type 0
  Leaves u input w (raise e) w' =
      (w'.committed ≡ w.committed) × (w'.db ≡ w.committed) × (w'.cache ≡ w.cache)
  Leaves u input w (ok r) w' =
      if r.is_cached
      then (w'.committed ≡ w.db) × (w'.db ≡ w.db) × (w'.cache ≡ w.cache)
      else ((run_turn svc u input w).0 ≡ ok r.response)
        × (w'.db ≡ (run_turn svc u input w).1.db)
        × (w'.committed ≡ w'.db)
        × (w'.cache ≡ insert (cache_key svc input) (svc.encode (entry input r.response)) w.cache)

  take_turn-Leaves :
      (u : ℕ) (input : ProcessActionInput) (w : World svc.random.Gen svc.Stored)
      → let out = in_transaction (take_turn svc u input) w in Leaves u input w out.0 out.1
  unfolding take_turn cache_response
  take_turn-Leaves u input w = grind (arith, run_turn-Ensures svc u input w)

  -- A request that is refused leaves the committed data and the cache as they were, and rolls its
  -- writes back. One that is answered from the cache changes no data and not the cache. One that
  -- is played answers with the response of the turn, commits all that the turn wrote, and stores
  -- the response with the action's digest under the request's key, and nothing else, in the cache.
  pub execute-Leaves :
      (u : ℕ) (input : ProcessActionInput) (w : World svc.random.Gen svc.Stored)
      → let out = in_transaction (execute svc u input) w in Leaves u input w out.0 out.1
  unfolding execute cached answer_cached replay
  execute-Leaves u input w = grind (arith, take_turn-Leaves u input w)

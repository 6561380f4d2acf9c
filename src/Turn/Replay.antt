-- ===== src/Turn/Replay.antt =====
-- Idempotency: what a second request under the same key gets.
use ai_saga.Common.{
  ℕ, ◌≡◌, ◌≢◌, ap, ◌∙◌, true, false, some, Text, text_eqb_iff, lookup, lookup-insert_self, ok,
  raise, conflict, arith,
}
use ai_saga.Store.Monad.{World}
use ai_saga.Store.Services.{Services, Response, CacheEntry}
use ai_saga.Turn.Execute.{
  ProcessActionInput, ProcessActionResult, replay, compute_action_payload_hash, cache_key, cached,
  cache_response, take_turn, answer_cached, execute,
}

module _ (svc : Services) where
  -- The entry under a request's key.
  abbrev Stored : ProcessActionInput → Response → World svc.random.Gen svc.Stored → Type 0
  Stored input response w =
      lookup (cache_key svc input) w.cache
      ≡ some (
          svc.encode (record {
            response = response;
            payload_hash = some (compute_action_payload_hash svc input.action input.action_type);
          }))

  take_turn-Stored :
      (user_id : ℕ) (input : ProcessActionInput) (w w' : World svc.random.Gen svc.Stored)
      (r : ProcessActionResult)
      → take_turn svc user_id input w ≡ (ok r, w')
      → Stored input r.response w' × (r.is_cached ≡ false)
  unfolding take_turn cache_response
  take_turn-Stored user_id input w w' r h = grind (arith, lookup-insert_self)

  execute-Stored :
      (user_id : ℕ) (input : ProcessActionInput) (w w' : World svc.random.Gen svc.Stored)
      (r : ProcessActionResult)
      → execute svc user_id input w ≡ (ok r, w')
      → r.is_cached ≡ false
      → Stored input r.response w'
  unfolding execute cached answer_cached replay
  execute-Stored user_id input w w' r h fresh = grind (arith, take_turn-Stored user_id input w w' r)

  cached_hit :
      (key : Text) (e : CacheEntry) (w : World svc.random.Gen svc.Stored)
      → lookup key w.cache ≡ some (svc.encode e)
      → cached svc key w ≡ (ok (some (svc.encode e)), w)
  unfolding cached
  cached_hit key e w h = ground (arith, svc.is_blank-encode e)

  -- A request under the key of a stored entry is answered from it, and changes nothing.
  execute_stored :
      (user_id : ℕ) (input : ProcessActionInput) (w : World svc.random.Gen svc.Stored)
      (e : CacheEntry)
      → lookup (cache_key svc input) w.cache ≡ some (svc.encode e)
      → execute svc user_id input w
        ≡ (replay (compute_action_payload_hash svc input.action input.action_type) e, w)
  unfolding execute answer_cached
  execute_stored user_id input w e h =
      ground (arith, cached_hit (cache_key svc input) e w h, svc.decode-encode e)

  -- After a turn has been played and answered, a request with the same session, key and action gets
  -- the same response, marked as cached, and changes nothing at all; this holds for every user and
  -- every action type that it names.
  pub execute_replays :
      (user_id user_id' : ℕ) (input input' : ProcessActionInput)
      (w w' : World svc.random.Gen svc.Stored) (r : ProcessActionResult)
      → execute svc user_id input w ≡ (ok r, w')
      → r.is_cached ≡ false
      → input'.session_id ≡ input.session_id
      → input'.idempotency_key ≡ input.idempotency_key
      → input'.action ≡ input.action
      → execute svc user_id' input' w'
        ≡ (ok (record { response = r.response; is_cached = true }), w')
  unfolding replay cache_key compute_action_payload_hash
  execute_replays user_id user_id' input input' w w' r h fresh same_session same_key same_action =
      let e : CacheEntry = record {
        response = r.response;
        payload_hash = some (svc.python.payload_digest input.action);
      } in
      let stored : Stored input r.response w' = execute-Stored user_id input w w' r h fresh in
      execute_stored user_id' input' w' e (rw (same_session, same_key) stored)
      ∙ ground (
        arith,
        text_eqb_iff (svc.python.payload_digest input.action)
            (svc.python.payload_digest input'.action),
        ap svc.python.payload_digest same_action,
      )

  -- With the same session and key and an action of another digest it is refused as a conflict, and
  -- nothing changes.
  pub execute_conflicts :
      (user_id user_id' : ℕ) (input input' : ProcessActionInput)
      (w w' : World svc.random.Gen svc.Stored) (r : ProcessActionResult)
      → execute svc user_id input w ≡ (ok r, w')
      → r.is_cached ≡ false
      → input'.session_id ≡ input.session_id
      → input'.idempotency_key ≡ input.idempotency_key
      → svc.python.payload_digest input'.action ≢ svc.python.payload_digest input.action
      → execute svc user_id' input' w' ≡ (raise conflict, w')
  unfolding replay cache_key compute_action_payload_hash
  execute_conflicts user_id user_id' input input' w w' r h fresh same_session same_key other =
      let e : CacheEntry = record {
        response = r.response;
        payload_hash = some (svc.python.payload_digest input.action);
      } in
      let stored : Stored input r.response w' = execute-Stored user_id input w w' r h fresh in
      execute_stored user_id' input' w' e (rw (same_session, same_key) stored)
      ∙ ground (
        arith,
        text_eqb_iff (svc.python.payload_digest input.action)
            (svc.python.payload_digest input'.action),
      )

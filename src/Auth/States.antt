-- ===== src/Auth/States.antt =====
-- The state of a sign-in serves one callback.
use ai_saga.Common.{
  ℕ, ◌+◌, ◌≡◌, ◌∙◌, refl, ap, inl, inr, Option, none, false, Text, ok, raise, Result-cases, Bool,
  bad_request, if◌then◌else◌, arith,
}
use ai_saga.Program.{lift, pure, ◌>>◌, >>=-step}
use ai_saga.Json.{Json, Fields}
use ai_saga.Auth.Entities.{UserEntity}
use ai_saga.Auth.Services.{AuthServices, CacheValue}
use ai_saga.Auth.Realm.{State}
use ai_saga.Auth.Cache.{
  get_key, state_key, get_value, set_value, delete_value, consume_oauth_state, set_jwt_session,
  set_google_access_token, set_google_refresh_token, as_state, expire_seconds,
}
use ai_saga.Auth.Google.{verify_state, is_google_state}
use ai_saga.Auth.Login.{
  OAuthCallbackInput, handle_oauth_callback, sign_in, keep_google_tokens, open_session,
}
use ai_saga.Auth.Tokens.{create_access_token, create_refresh_token}
use ai_saga.Auth.Keys.{state-ne-session, state-ne-access, state-ne-refresh}
use ai_saga.Auth.Frames.{exchange_code_for_tokens-cache, get_user_info-cache, identify-cache}

module _ (svc : AuthServices) (s : Text) (t : ℕ) where
  -- The state is not stored, as is seen at the time `t`.
  abbrev Gone : State svc → Type 0
  Gone w = svc.redis.read t (get_key (state_key svc s)) w.cache ≡ none

  verify_state-Gone : (w : State svc) → Gone (verify_state svc s w).1
  unfolding verify_state consume_oauth_state get_value delete_value
  verify_state-Gone w =
      ground (arith, svc.redis.read-remove_self t (get_key (state_key svc s)) w.cache)

  set_google_access_token-Gone :
      (u : ℕ) (x e : Json) (w : State svc) → Gone w → Gone (set_google_access_token svc u x e w).1
  unfolding set_google_access_token set_value
  set_google_access_token-Gone u x e w g = elim (Result-cases (expire_seconds svc e)) [
    | inl (n, e0) ↦ rw e0 (svc.redis.read-write_other _ _ _ _ _ _ _ (state-ne-access svc u s) ∙ g)
    | inr (x, e0) ↦ rw e0 g
  ]

  set_google_refresh_token-Gone :
      (u : ℕ) (x : Json) (w : State svc) → Gone w → Gone (set_google_refresh_token svc u x w).1
  unfolding set_google_refresh_token set_value
  set_google_refresh_token-Gone u x w g =
      svc.redis.read-write_other _ _ _ _ _ _ _ (state-ne-refresh svc u s) ∙ g

  keep_google_tokens-Gone :
      (u : ℕ) (tokens : Fields) (x r : Json) (w : State svc)
      → Gone w
      → Gone (keep_google_tokens svc u tokens x r w).1
  unfolding keep_google_tokens
  keep_google_tokens-Gone u tokens x r w g =
      grind (arith, set_google_access_token-Gone, set_google_refresh_token-Gone)

  open_session-Gone :
      (u : UserEntity) (new : Bool) (w : State svc) → Gone w → Gone (open_session svc u new w).1
  unfolding open_session create_access_token create_refresh_token set_jwt_session set_value
  open_session-Gone u new w g =
      svc.redis.read-write_other _ _ _ _ _ _ _ (state-ne-session svc u.id s) ∙ g

  sign_in-Gone :
      (input : OAuthCallbackInput) (w : State svc) → Gone w → Gone (sign_in svc input w).1
  unfolding sign_in
  sign_in-Gone input w g = grind (
    arith,
    exchange_code_for_tokens-cache svc,
    get_user_info-cache svc,
    identify-cache svc,
    keep_google_tokens-Gone,
    open_session-Gone,
  )

  -- Whatever the callback comes to, its state is gone.
  handle_oauth_callback-Gone :
      (input : OAuthCallbackInput) (w : State svc)
      → input.state ≡ s
      → Gone (handle_oauth_callback svc input w).1
  unfolding handle_oauth_callback
  handle_oauth_callback-Gone input w h = rw h (grind (arith, verify_state-Gone, sign_in-Gone))

module _ (svc : AuthServices) where
  consumed : Text → State svc → State svc
  consumed s v = record v {
    clock = v.clock + 1;
    cache = svc.redis.remove (get_key (state_key svc s)) v.cache;
  }

  consume_oauth_state_gone :
      (s : Text) (v : State svc)
      → svc.redis.read (svc.time v.clock) (get_key (state_key svc s)) v.cache ≡ none
      → consume_oauth_state svc s v ≡ (ok none, consumed s v)
  unfolding consume_oauth_state get_value delete_value consumed
  consume_oauth_state_gone s v h = ap (λ (o : Option CacheValue). (as_state o, consumed s v)) h

  verify_state_gone :
      (s : Text) (v : State svc)
      → svc.redis.read (svc.time v.clock) (get_key (state_key svc s)) v.cache ≡ none
      → verify_state svc s v ≡ (ok false, consumed s v)
  unfolding verify_state
  verify_state_gone s v h =
      >>=-step (consume_oauth_state svc s) (λ o. pure (is_google_state o)) v (consumed s v) none
        (consume_oauth_state_gone s v h)

  handle_oauth_callback_stale :
      (input : OAuthCallbackInput) (v v' : State svc)
      → verify_state svc input.state v ≡ (ok false, v')
      → handle_oauth_callback svc input v ≡ (raise bad_request, v')
  unfolding handle_oauth_callback
  handle_oauth_callback_stale input v v' h =
      >>=-step (verify_state svc input.state)
        (λ valid. lift (if valid then ok tt else raise bad_request) >> sign_in svc input) v v' false
        h

  -- A state serves one callback. Whatever a callback with a state comes to, a callback with the same
  -- state on the cache that it left, at any later time, is refused as a bad request before anything
  -- else is done.
  pub handle_oauth_callback_once :
      (input again : OAuthCallbackInput) (w v : State svc)
      → again.state ≡ input.state
      → v.cache ≡ (handle_oauth_callback svc input w).1.cache
      → ((handle_oauth_callback svc again v).0 ≡ raise bad_request)
        × ((handle_oauth_callback svc again v).1.users ≡ v.users)
        × ((handle_oauth_callback svc again v).1.accounts ≡ v.accounts)
        × ((handle_oauth_callback svc again v).1.calls ≡ v.calls)
  unfolding consumed
  handle_oauth_callback_once input again w v h same =
      let gone : svc.redis.read (svc.time v.clock) (get_key (state_key svc again.state)) v.cache
          ≡ none =
        rw (h, same) (handle_oauth_callback-Gone svc input.state (svc.time v.clock) input w refl) in
      let stale =
        handle_oauth_callback_stale again v (consumed again.state v)
          (verify_state_gone again.state v gone) in
      (rw stale, rw stale, rw stale, rw stale)

-- ===== src/Auth/Google.antt =====
-- app/auth/infrastructure/adapters/google_auth_adapter.py. The addresses, the client's identifiers
-- and the headers of a request are constants, and its kind stands for them.
use ai_saga.Common.{
  ℕ, zero, suc, ◌+◌, ◌*◌, Bool, false, eqb, Option, none, some, Text, text, text_eqb, Result, ok,
  raise, bad_request, server_error,
}
use ai_saga.Program.{◌>>=◌, ◌>>◌, pure, lift}
use ai_saga.Json.{Json, Fields, find}
use ai_saga.Auth.Services.{
  AuthServices, OauthState, GoogleRequest, GoogleReply, exchange_code, user_info, refresh, revoke,
  answer, status_error, request_error,
}
use ai_saga.Auth.Realm.{Act, now, request}
use ai_saga.Auth.Cache.{set_oauth_state, consume_oauth_state}

-- `_MAX_RETRY_ATTEMPTS`
abbrev pub max_retry_attempts : ℕ
max_retry_attempts = 3

-- What the three requests for data make of a reply: a status error is a `BadRequest`; a body with
-- the wanted key is the result; and the `BadRequest` for a body without it is caught by the
-- `except Exception` below it, which raises a `ServerError`, as it does for an unreadable body.
unfoldable pub read_reply : Text → GoogleReply → Result Fields
unfolding find
read_reply key status_error = raise bad_request
read_reply key request_error = raise server_error
read_reply key (answer status none) = raise server_error
read_reply key (answer status (some body)) = elim (find key body) [
  | none ↦ raise server_error
  | some v ↦ ok body
]

-- The check of `verify_state` on what was stored.
unfoldable pub is_google_state : Option OauthState → Bool
is_google_state none = false
is_google_state (some s) = text_eqb s.provider (text "google")

-- `response.status_code == 200`, and False for what raises.
unfoldable pub is_status_ok : GoogleReply → Bool
is_status_ok (answer status body) = eqb status 200
is_status_ok status_error = false
is_status_ok request_error = false

module _ (svc : AuthServices) where
  -- The loop of `_request_with_retry` on the attempts left: a request that fails to be sent is made
  -- again, and after the last attempt the reply is `request_error`, a `ServerError` to the callers.
  unfoldable pub attempts : ℕ → GoogleRequest → Act svc GoogleReply
  attempts zero r = pure request_error
  attempts (suc n) r = do
    reply ← request svc r
    elim reply [
      | request_error ↦ attempts n r
      | status_error ↦ pure status_error
      | answer status body ↦ pure (answer status body)
    ]

  unfoldable pub request_with_retry : GoogleRequest → Act svc GoogleReply
  unfolding attempts
  request_with_retry r = attempts max_retry_attempts r

  -- The state of `generate_auth_url`; the address around it is constant.
  unfoldable pub generate_auth_url : Act svc Text
  generate_auth_url = do
    state ← λ w. (ok (svc.token_urlsafe w.ids), record w { ids = w.ids + 1 })
    created_at ← now svc
    set_oauth_state svc state (record { created_at = created_at; provider = text "google" })
        (60 * 10)
    pure state

  unfoldable pub verify_state : Text → Act svc Bool
  unfolding is_google_state
  verify_state state = do s ← consume_oauth_state svc state; pure (is_google_state s)

  unfoldable pub exchange_code_for_tokens : Text → Act svc Fields
  unfolding request_with_retry read_reply
  exchange_code_for_tokens code = do
    reply ← request_with_retry (exchange_code code)
    lift (read_reply (text "access_token") reply)

  unfoldable pub get_user_info : Json → Act svc Fields
  unfolding request_with_retry read_reply
  get_user_info access_token = do
    reply ← request_with_retry (user_info access_token)
    lift (read_reply (text "email") reply)

  unfoldable pub refresh_access_token : Json → Act svc Fields
  unfolding request_with_retry read_reply
  refresh_access_token refresh_token = do
    reply ← request_with_retry (refresh refresh_token)
    lift (read_reply (text "access_token") reply)

  unfoldable pub revoke_token : Text → Act svc Bool
  unfolding request_with_retry is_status_ok
  revoke_token token = do reply ← request_with_retry (revoke token); pure (is_status_ok reply)

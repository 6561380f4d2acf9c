-- ===== src/Auth/Cache.antt =====
-- app/auth/infrastructure/adapters/auth_cache_adapter.py over the reads and writes of
-- app/common/storage/redis.py. Each of those puts the prefix `auth:` before the key once more.
use ai_saga.Common.{
  ℕ, ◌*◌, Bool, true, false, eqb, if◌then◌else◌, Option, none, some, ◌++◌, Text, text, Result, ok,
  raise, attribute_error, type_error, server_error,
}
use ai_saga.Common.Int.{ℤ, pos, negsuc}
use ai_saga.Program.{◌>>=◌, ◌>>◌, pure, lift}
use ai_saga.Json.{Json, null, bool, num, str, obj, field, end}
use ai_saga.Auth.Services.{
  AuthServices, CacheValue, SessionData, OauthState, session, revoked, oauth_state, token,
}
use ai_saga.Auth.Realm.{Act, now}

-- `AuthCacheAdapter._get_key`
unfoldable pub get_key : Text → Text
get_key key = text "auth:" ++ key

-- `session_data["email"]` on what is no dictionary.
unfoldable pub as_session : Option CacheValue → Result (Option SessionData)
as_session none = ok none
as_session (some (session d)) = ok (some d)
as_session (some revoked) = raise type_error
as_session (some (oauth_state s)) = raise type_error
as_session (some (token t)) = raise type_error

-- `state_data.get("provider")` on what is no dictionary.
unfoldable pub as_state : Option CacheValue → Result (Option OauthState)
as_state none = ok none
as_state (some (oauth_state s)) = ok (some s)
as_state (some (session d)) = raise attribute_error
as_state (some revoked) = raise attribute_error
as_state (some (token t)) = raise attribute_error

-- The document that a value is stored as.
unfoldable pub as_json : CacheValue → Json
as_json (token t) = t
as_json revoked = bool true
as_json (session d) =
    obj
      (field (text "email") (str d.email) (field (text "user_level") (num (pos d.user_level)) end))
as_json (oauth_state s) = obj (
    field (text "created_at") (num (pos s.created_at))
      (field (text "provider") (str s.provider) end))

-- The document of what was found.
unfoldable pub documents : Option CacheValue → Option Json
unfolding as_json
documents none = none
documents (some v) = some (as_json v)

-- `result is not None`
unfoldable pub is_found : Option CacheValue → Bool
is_found none = false
is_found (some v) = true

module _ (svc : AuthServices) where
  -- `_CacheClient.get`
  unfoldable pub get_value : Text → Act svc (Option CacheValue)
  get_value key = do t ← now svc; λ w. (ok (svc.redis.read t (get_key key) w.cache), w)

  -- `_CacheClient.set`
  unfoldable pub set_value : Text → CacheValue → ℕ → Act svc (Unit {0})
  set_value key value expire = do
    t ← now svc
    λ w. (ok tt, record w { cache = svc.redis.write t expire (get_key key) value w.cache })

  -- `_CacheClient.delete`
  unfoldable pub delete_value : Text → Act svc (Unit {0})
  delete_value key w = (ok tt, record w { cache = svc.redis.remove (get_key key) w.cache })

  unfoldable pub session_key : ℕ → Text
  unfolding get_key
  session_key user_id = get_key (text "session:" ++ svc.uuid_hex user_id)

  -- `expire or self._ttl`, an hour
  unfoldable pub set_jwt_session : ℕ → SessionData → ℕ → Act svc (Unit {0})
  unfolding set_value session_key
  set_jwt_session user_id data' expire =
      set_value (session_key user_id) (session data') (if eqb expire 0 then 3600 else expire)

  unfoldable pub get_jwt_session : ℕ → Act svc (Option SessionData)
  unfolding get_value session_key as_session
  get_jwt_session user_id = do v ← get_value (session_key user_id); lift (as_session v)

  unfoldable pub delete_jwt_session : ℕ → Act svc (Unit {0})
  unfolding delete_value session_key
  delete_jwt_session user_id = delete_value (session_key user_id)

  unfoldable pub blacklist_key : Text → Text
  unfolding get_key
  blacklist_key jti = get_key (text "blacklist:" ++ jti)

  unfoldable pub blacklist_jwt_token : Text → ℕ → Act svc (Unit {0})
  unfolding set_value blacklist_key
  blacklist_jwt_token jti expire = set_value (blacklist_key jti) revoked expire

  unfoldable pub is_jwt_token_blacklisted : Text → Act svc Bool
  unfolding get_value blacklist_key is_found
  is_jwt_token_blacklisted jti = do v ← get_value (blacklist_key jti); pure (is_found v)

  unfoldable pub state_key : Text → Text
  state_key state = text "oauth_state:" ++ state

  unfoldable pub set_oauth_state : Text → OauthState → ℕ → Act svc (Unit {0})
  unfolding set_value state_key
  set_oauth_state state data' expire = set_value (state_key state) (oauth_state data') expire

  unfoldable pub get_oauth_state : Text → Act svc (Option OauthState)
  unfolding get_value state_key as_state
  get_oauth_state state = do v ← get_value (state_key state); lift (as_state v)

  -- The script reads and deletes in one step.
  unfoldable pub consume_oauth_state : Text → Act svc (Option OauthState)
  unfolding get_value delete_value state_key as_state
  consume_oauth_state state = do
    v ← get_value (state_key state)
    delete_value (state_key state)
    lift (as_state v)

  unfoldable pub delete_oauth_state : Text → Act svc (Unit {0})
  unfolding delete_value state_key
  delete_oauth_state state = delete_value (state_key state)

  unfoldable pub access_key : ℕ → Text
  unfolding get_key
  access_key user_id = get_key (text "google_access_token:" ++ svc.uuid_hex user_id)

  unfoldable pub refresh_key : ℕ → Text
  unfolding get_key
  refresh_key user_id = get_key (text "google_refresh_token:" ++ svc.uuid_hex user_id)

  -- `int(expire)`, which Redis wants positive; the wrapper turns what fails into a `ServerError`.
  unfoldable pub positive_seconds : Option ℤ → Result ℕ
  positive_seconds none = raise server_error
  positive_seconds (some (negsuc n)) = raise server_error
  positive_seconds (some (pos n)) = if eqb n 0 then raise server_error else ok n

  -- `expire if expire is not None else self._ttl`
  unfoldable pub expire_seconds : Json → Result ℕ
  unfolding positive_seconds
  expire_seconds expire = elim expire [ null ↦ ok 3600 | e ↦ positive_seconds (svc.to_int e) ]

  unfoldable pub set_google_access_token : ℕ → Json → Json → Act svc (Unit {0})
  unfolding set_value access_key expire_seconds
  set_google_access_token user_id access_token expire = do
    seconds ← lift (expire_seconds expire)
    set_value (access_key user_id) (token access_token) seconds

  unfoldable pub set_google_refresh_token : ℕ → Json → Act svc (Unit {0})
  unfolding set_value refresh_key
  set_google_refresh_token user_id refresh_token =
      set_value (refresh_key user_id) (token refresh_token) (60 * 60 * 24 * 30)

  unfoldable pub get_google_access_token : ℕ → Act svc (Option Json)
  unfolding get_value access_key documents
  get_google_access_token user_id = do v ← get_value (access_key user_id); pure (documents v)

  unfoldable pub get_google_refresh_token : ℕ → Act svc (Option Json)
  unfolding get_value refresh_key documents
  get_google_refresh_token user_id = do v ← get_value (refresh_key user_id); pure (documents v)

  unfoldable pub delete_google_auth_data : ℕ → Act svc (Unit {0})
  unfolding delete_value access_key refresh_key
  delete_google_auth_data user_id = do
    delete_value (access_key user_id)
    delete_value (refresh_key user_id)

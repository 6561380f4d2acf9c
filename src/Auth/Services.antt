-- ===== src/Auth/Services.antt =====
-- What signing in takes from outside: the clock in microseconds, identifiers, signed tokens, Redis,
-- Google's answers, and pydantic's and Python's conversions; with the facts that are relied on.
use ai_saga.Common.{ℕ, ◌+◌, ◌*◌, ◌/◌, ◌≤◌, ◌<◌, ◌≡◌, ◌≢◌, Bool, Option, none, some, Text, []}
use ai_saga.Common.Int.{ℤ}
use ai_saga.Json.{Json, Fields}

-- What is stored under a user's session, and under the state of a sign-in.
pub record SessionData : Type 0 where
  pub email : Text
  pub user_level : ℕ

pub record OauthState : Type 0 where
  pub created_at : ℕ
  pub provider : Text

-- The values that the cache holds, as `rapidjson.loads` returns them.
pub data CacheValue : Type 0 where
  session : SessionData → CacheValue
  revoked : CacheValue
  oauth_state : OauthState → CacheValue
  token : Json → CacheValue

-- The claims of a signed token; `none` for one that is missing.
pub record Claims : Type 0 where
  pub sub : Option Text
  pub email : Option Text
  pub user_level : Option ℕ
  pub exp : Option ℕ
  pub iat : Option ℕ
  pub jti : Option Text
  pub kind : Option Text

pub data GoogleRequest : Type 0 where
  exchange_code : Text → GoogleRequest
  user_info : Json → GoogleRequest
  refresh : Json → GoogleRequest
  revoke : Text → GoogleRequest

-- An answer with its status and its body, `none` for one that is no JSON object; a status that
-- `raise_for_status` refuses; or a request that failed to be sent or answered.
pub data GoogleReply : Type 0 where
  answer : ℕ → Option Fields → GoogleReply
  status_error request_error : GoogleReply

-- Redis, whose keys hold a value until a time.
pub record Redis : Type 1 where
  pub Cache : Type 0
  -- `GET` at a time, `SET` with `EX` at a time, and `DEL`
  pub read : ℕ → Text → Cache → Option CacheValue
  pub write : ℕ → ℕ → Text → CacheValue → Cache → Cache
  pub remove : Text → Cache → Cache
  pub read-write_self :
      (now later seconds : ℕ) (k : Text) (v : CacheValue) (c : Cache)
      → now ≤ later
      → later < now + seconds * 1000000
      → read later k (write now seconds k v c) ≡ some v
  pub read-write_other :
      (t now seconds : ℕ) (j k : Text) (v : CacheValue) (c : Cache)
      → j ≢ k
      → read t j (write now seconds k v c) ≡ read t j c
  pub read-remove_self : (t : ℕ) (k : Text) (c : Cache) → read t k (remove k c) ≡ none
  pub read-remove_other :
      (t : ℕ) (j k : Text) (c : Cache) → j ≢ k → read t j (remove k c) ≡ read t j c

pub record AuthServices : Type 1 where
  pub redis : Redis
  -- the clock at its n-th reading, and identifiers with their texts
  pub time : ℕ → ℕ
  pub time-mono : (m n : ℕ) → m ≤ n → time m ≤ time n
  pub uuid7 : ℕ → ℕ
  pub uuid_text : ℕ → Text
  pub uuid_hex : ℕ → Text
  pub parse_uuid : Text → Option ℕ
  pub parse_uuid-uuid_text : (i : ℕ) → parse_uuid (uuid_text i) ≡ some i
  pub uuid_text-ne-nil : (i : ℕ) → uuid_text i ≢ []
  -- `jwt.encode`, and `jwt.decode` at a time, with `none` for a `JWTError`
  pub sign : Claims → Text
  pub decode : ℕ → Text → Option Claims
  pub decode-sign :
      (t e : ℕ) (c : Claims) → c.exp ≡ some e → t / 1000000 < e → decode t (sign c) ≡ some c
  pub decode-sign_eq : (t : ℕ) (c d : Claims) → decode t (sign c) ≡ some d → d ≡ c
  pub decode-agree :
      (s t : ℕ) (x : Text) (c d : Claims) → decode s x ≡ some c → decode t x ≡ some d → c ≡ d
  pub decode-later :
      (s t e : ℕ) (x : Text) (c : Claims)
      → decode s x ≡ some c
      → c.exp ≡ some e
      → s ≤ t
      → t / 1000000 < e
      → decode t x ≡ some c
  pub decode-exp :
      (t e : ℕ) (x : Text) (c : Claims) → decode t x ≡ some c → c.exp ≡ some e → t / 1000000 ≤ e
  -- Google at the n-th request
  pub send : ℕ → GoogleRequest → GoogleReply
  -- `secrets.token_urlsafe` at the n-th call
  pub token_urlsafe : ℕ → Text
  -- pydantic's conversion to a field of type `bool`, and Python's `int`; `none` where they raise
  pub as_bool : Json → Option Bool
  pub to_int : Json → Option ℤ
  -- the settings
  pub jwt_access_token_expire_minutes : ℕ
  pub jwt_refresh_token_expire_minutes : ℕ
  pub jwt_session_expire_minutes : ℕ

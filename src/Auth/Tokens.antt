-- ===== src/Auth/Tokens.antt =====
-- app/auth/infrastructure/adapters/token_adapter.py
use ai_saga.Common.{
  ℕ, zero, suc, ◌+◌, ◌-◌, ◌*◌, ◌/◌, Bool, false, ltb, eqb, if◌then◌else◌, Option, none, some, ◌∷◌,
  [], Text, text, raise_if, or_raise, unauthorized,
}
use ai_saga.Program.{◌>>=◌, ◌>>◌, pure, lift}
use ai_saga.Auth.Services.{AuthServices, Claims}
use ai_saga.Auth.Realm.{Act, now, new_id}
use ai_saga.Auth.Cache.{is_jwt_token_blacklisted, blacklist_jwt_token}

pub record AccessToken : Type 0 where
  pub access_token : Text
  pub token_type : Text
  pub expires_in : ℕ
  pub jti : Text

pub record RefreshToken : Type 0 where
  pub refresh_token : Text
  pub jti : Text
  pub expires_in : ℕ

-- The seconds that a token lives: those of `expires_delta`, if it is given and not zero, or the
-- setting's minutes.
unfoldable pub lifetime : Option ℕ → ℕ → ℕ
lifetime none minutes = minutes * 60
lifetime (some zero) minutes = minutes * 60
lifetime (some (suc s)) minutes = suc s

-- `payload.get("jti")`, where a missing and an empty one both count as false.
unfoldable pub token_id : Claims → Option Text
token_id c = elim c.jti [ none ↦ none | some j ↦ elim j [ [] ↦ none | x ∷ xs ↦ some (x ∷ xs) ] ]

-- `int(exp - get_utc_datetime().timestamp())`, and 0 where that is negative.
unfoldable pub seconds_left : ℕ → ℕ → ℕ
seconds_left exp t = (exp * 1000000 - t) / 1000000

module _ (svc : AuthServices) where
  unfoldable pub create_access_token : ℕ → Text → ℕ → Option ℕ → Act svc AccessToken
  unfolding lifetime
  create_access_token user_id email user_level expires_delta = do
    let seconds = lifetime expires_delta svc.jwt_access_token_expire_minutes
    start ← now svc
    id ← new_id svc
    issued ← now svc
    let to_encode : Claims = record {
      sub = some (svc.uuid_text user_id);
      email = some email;
      user_level = some user_level;
      exp = some ((start + seconds * 1000000) / 1000000);
      iat = some (issued / 1000000);
      jti = some (svc.uuid_text id);
      kind = some (text "access");
    }
    pure (record {
      access_token = svc.sign to_encode;
      token_type = text "bearer";
      expires_in = seconds;
      jti = svc.uuid_text id;
    })

  unfoldable pub create_refresh_token : ℕ → Option ℕ → Act svc RefreshToken
  unfolding lifetime
  create_refresh_token user_id expires_delta = do
    let seconds = lifetime expires_delta svc.jwt_refresh_token_expire_minutes
    start ← now svc
    id ← new_id svc
    issued ← now svc
    let to_encode : Claims = record {
      sub = some (svc.uuid_text user_id);
      email = none;
      user_level = none;
      exp = some ((start + seconds * 1000000) / 1000000);
      iat = some (issued / 1000000);
      jti = some (svc.uuid_text id);
      kind = some (text "refresh");
    }
    pure (record {
      refresh_token = svc.sign to_encode;
      jti = svc.uuid_text id;
      expires_in = seconds;
    })

  -- `if jti and await is_jwt_token_blacklisted(jti)`
  unfoldable pub is_revoked : Option Text → Act svc Bool
  is_revoked none = pure false
  is_revoked (some jti) = is_jwt_token_blacklisted svc jti

  unfoldable pub verify_token : Text → Act svc Claims
  unfolding token_id is_revoked
  verify_token token = do
    t ← now svc
    payload ← lift (or_raise (svc.decode t token) unauthorized)
    revoked ← is_revoked (token_id payload)
    lift (raise_if revoked unauthorized)
    pure payload

  -- The entry for an identifier lives as long as the token, and is not made for a token that has
  -- less than a second left.
  unfoldable pub revoke_id : Option Text → Option ℕ → Act svc (Unit {0})
  unfolding seconds_left
  revoke_id none exp = pure tt
  revoke_id (some jti) none = pure tt
  revoke_id (some jti) (some exp) = if eqb exp 0 then pure tt else do
    t ← now svc
    if ltb 0 (seconds_left exp t) then blacklist_jwt_token svc jti (seconds_left exp t) else pure tt

  unfoldable pub blacklist_token : Text → Act svc (Unit {0})
  unfolding token_id revoke_id
  blacklist_token token = do
    t ← now svc
    elim (svc.decode t token) [ none ↦ pure tt | some c ↦ revoke_id (token_id c) c.exp ]

-- ===== src/Auth/Renewed.antt =====
-- The token that a renewal hands out, and the realm that it leaves.
use ai_saga.Common.{
  ℕ, ◌+◌, ◌*◌, ◌/◌, ◌≤◌, ◌<◌, ◌≡◌, ◌≢◌, ◌∙◌, refl, sym, ap, none, some, [], ◌∷◌, Text, text, true,
  ok, Result, arith,
}
use ai_saga.Auth.Services.{AuthServices, Claims, SessionData, session}
use ai_saga.Auth.Realm.{State}
use ai_saga.Auth.Cache.{
  get_key, session_key, blacklist_key, get_value, set_value, get_jwt_session, set_jwt_session,
  is_jwt_token_blacklisted, as_session, is_found,
}
use ai_saga.Auth.Tokens.{
  create_access_token, create_refresh_token, verify_token, blacklist_token, token_id, is_revoked,
  lifetime,
}
use ai_saga.Auth.Requests.{RefreshTokenResult, claimed_session, renew, subject, is_refresh}
use ai_saga.Auth.Unlisted.{entry, blacklist_token-other, set_jwt_session-other}
use ai_saga.Auth.Revocation.{blacklist_token-ok, blacklist_token-clock}

pub token_id_lem : (c : Claims) (j : Text) → c.jti ≡ some j → j ≢ [] → token_id c ≡ some j
unfolding token_id
token_id_lem c [] h n = absurd (n refl)
token_id_lem c (x ∷ xs) h n = rw h

module _ (svc : AuthServices) where
  -- The refresh token that `renew` hands out at a state, and the time that it lives.
  pub renewed_claims : ℕ → State svc → Claims
  renewed_claims u w = record {
    sub = some (svc.uuid_text u);
    email = none;
    user_level = none;
    exp = some (
        (svc.time (w.clock + 1 + 1) + lifetime none svc.jwt_refresh_token_expire_minutes * 1000000)
        / 1000000);
    iat = some (svc.time (w.clock + 1 + 1 + 1) / 1000000);
    jti = some (svc.uuid_text (svc.uuid7 (w.ids + 1)));
    kind = some (text "refresh");
  }

  pub renewed : ℕ → SessionData → State svc → RefreshTokenResult
  unfolding renewed_claims
  renewed u d w = record {
    access_token = svc.sign (record {
      sub = some (svc.uuid_text u);
      email = some d.email;
      user_level = some d.user_level;
      exp = some (
          (svc.time w.clock + lifetime none svc.jwt_access_token_expire_minutes * 1000000)
          / 1000000);
      iat = some (svc.time (w.clock + 1) / 1000000);
      jti = some (svc.uuid_text (svc.uuid7 w.ids));
      kind = some (text "access");
    });
    token_type = text "bearer";
    expires_in = lifetime none svc.jwt_access_token_expire_minutes;
    refresh_token = svc.sign (renewed_claims u w);
  }

  -- The world before the old token is revoked.
  pub signed : State svc → State svc
  signed w = record w { clock = w.clock + 1 + 1 + 1 + 1; ids = w.ids + 1 + 1 }

  pub renew_lem :
      (token : Text) (u : ℕ) (d : SessionData) (w : State svc)
      → renew svc token u d w ≡ (
        ok (renewed u d w),
        (set_jwt_session svc u d
            (lifetime none svc.jwt_refresh_token_expire_minutes)
            (blacklist_token svc token (signed w)).1).1,
      )
  unfolding renew create_access_token create_refresh_token blacklist_token get_key set_jwt_session
      renewed signed lifetime
  renew_lem token u d w = rw (blacklist_token-ok svc token (signed w))

  -- The session is kept as long as the token lives.
  pub session_kept :
      (token : Text) (u : ℕ) (d : SessionData) (w : State svc) (n e : ℕ)
      → (blacklist_token svc token (signed w)).1.clock + 1 ≤ n
      → (renewed_claims u w).exp ≡ some e
      → svc.time n / 1000000 < e
      → svc.redis.read
          (svc.time n)
          (get_key (session_key svc u))
          (set_jwt_session svc u d
            (lifetime none svc.jwt_refresh_token_expire_minutes)
            (blacklist_token svc token (signed w)).1).1.cache
        ≡ some (session d)
  unfolding set_jwt_session set_value renewed_claims signed
  session_kept token u d w n e le x live =
      let v = (blacklist_token svc token (signed w)).1 in
      let start =
        svc.time-mono (w.clock + 1 + 1) v.clock
          (omega (arith, blacklist_token-clock svc token (signed w))) in
      svc.redis.read-write_self (svc.time v.clock) (svc.time n) _ _ _ _
        (svc.time-mono v.clock n (omega arith)) (ground arith)

  pub verify_token_fresh :
      (token : Text) (c : Claims) (j : Text) (v : State svc)
      → svc.decode (svc.time v.clock) token ≡ some c
      → token_id c ≡ some j
      → svc.redis.read (svc.time (v.clock + 1)) (get_key (blacklist_key svc j)) v.cache ≡ none
      → verify_token svc token v ≡ (ok c, record v { clock = v.clock + 1 + 1 })
  unfolding verify_token is_revoked is_jwt_token_blacklisted get_value is_found
  verify_token_fresh token c j v h i k = rw (h, i, k)

  pub claimed_session_found :
      (u : ℕ) (d : SessionData) (c : Claims) (v : State svc)
      → c.sub ≡ some (svc.uuid_text u)
      → is_refresh c ≡ true
      → svc.redis.read (svc.time v.clock) (get_key (session_key svc u)) v.cache ≡ some (session d)
      → claimed_session svc c v ≡ (ok (u, d), record v { clock = v.clock + 1 })
  unfolding claimed_session subject get_jwt_session get_value as_session
  claimed_session_found u d c v h r k = ground (arith, svc.parse_uuid-uuid_text u)

  pub renewed_claims-fields :
      (u : ℕ) (w : State svc)
      → ((renewed_claims u w).sub ≡ some (svc.uuid_text u))
        × ((renewed_claims u w).jti ≡ some (svc.uuid_text (svc.uuid7 (w.ids + 1))))
        × (is_refresh (renewed_claims u w) ≡ true)
  unfolding renewed_claims is_refresh
  renewed_claims-fields u w = (refl, refl, refl)

  pub renewed-token :
      (u : ℕ) (d : SessionData) (w : State svc)
      → (renewed u d w).refresh_token ≡ svc.sign (renewed_claims u w)
  unfolding renewed
  renewed-token u d w = refl

  -- The world that `renew` leaves.
  unfoldable pub left : Text → ℕ → SessionData → State svc → State svc
  left token u d w =
      (set_jwt_session svc u d (lifetime none svc.jwt_refresh_token_expire_minutes)
        (blacklist_token svc token (signed w)).1).1

  pub left_lem :
      (token : Text) (u : ℕ) (d : SessionData) (w : State svc) (result : RefreshTokenResult)
      (w' : State svc)
      → renew svc token u d w ≡ (ok result, w')
      → left token u d w ≡ w'
  unfolding left
  left_lem token u d w result w' h =
      ap (λ (p : Result RefreshTokenResult × State svc). p.1) (sym (renew_lem token u d w) ∙ h)

  -- The new identifier is off the list if it was, and is not the old token's.
  pub left-unlisted :
      (token : Text) (u : ℕ) (d : SessionData) (w : State svc) (t : ℕ) (i : Text)
      → ((n : ℕ) (o : Claims) → svc.decode (svc.time n) token ≡ some o → token_id o ≢ some i)
      → entry svc t i w ≡ none
      → entry svc t i (left token u d w) ≡ none
  unfolding left signed
  left-unlisted token u d w t i other free =
      set_jwt_session-other svc t i u d (lifetime none svc.jwt_refresh_token_expire_minutes)
        (blacklist_token svc token (signed w)).1
      ∙ blacklist_token-other svc t i token (signed w) (other (signed w).clock)
      ∙ free

  -- The time that a new token holds.
  pub expiry : State svc → ℕ
  expiry w =
      (svc.time (w.clock + 1 + 1) + lifetime none svc.jwt_refresh_token_expire_minutes * 1000000)
      / 1000000

  pub renewed_claims-exp : (u : ℕ) (w : State svc) → (renewed_claims u w).exp ≡ some (expiry w)
  unfolding renewed_claims expiry
  renewed_claims-exp u w = refl

  pub expiry-later :
      (w w' : State svc) (t : ℕ)
      → w.clock ≤ w'.clock
      → t + 1000000 ≤ svc.time w.clock + svc.jwt_refresh_token_expire_minutes * 60 * 1000000
      → t / 1000000 < expiry w'
  unfolding expiry lifetime
  expiry-later w w' t le within =
      let start = svc.time-mono w.clock (w'.clock + 1 + 1) (omega arith) in omega arith

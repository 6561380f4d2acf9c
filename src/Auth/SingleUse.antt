-- ===== src/Auth/SingleUse.antt =====
-- What serves once: refresh tokens and the states of sign-ins.
use ai_saga.Common.{
  ℕ, ◌+◌, ◌*◌, ◌/◌, ◌≤◌, ◌<◌, ◌≡◌, ◌⊎◌, ap, subst, none, Text, Result, ok, raise, unauthorized,
  arith,
}
use ai_saga.Program.{>>=-ok, >>=-raise}
use ai_saga.Auth.Services.{AuthServices, Claims, SessionData}
use ai_saga.Auth.Realm.{State}
use ai_saga.Auth.Tokens.{
  verify_token, blacklist_token, create_access_token, create_refresh_token, is_revoked, lifetime,
}
use ai_saga.Auth.Cache.{
  get_key, set_jwt_session, get_jwt_session, get_value, is_jwt_token_blacklisted,
}
use ai_saga.Auth.Requests.{
  RefreshTokenResult, refresh_token, refreshable, claimed_session, renew, subject,
}
use ai_saga.Auth.Revocation.{
  Issued, Revoked, verify_token-Revoked, blacklist_token-ok, blacklist_token-Revoked,
  set_jwt_session-Revoked,
}

module _ (svc : AuthServices) where
  refreshable-clock : (token : Text) (w : State svc) → w.clock ≤ (refreshable svc token w).1.clock
  unfolding refreshable claimed_session verify_token is_revoked is_jwt_token_blacklisted get_value
      get_jwt_session subject
  refreshable-clock token w = ground arith

  renew-Revoked :
      (token : Text) (c : Claims) (j : Text) (e s u : ℕ) (d : SessionData) (w : State svc)
      → s ≤ w.clock
      → Issued svc token c j e s
      → Revoked svc j e (renew svc token u d w).1
  unfolding renew create_access_token create_refresh_token blacklist_token get_key set_jwt_session
  renew-Revoked token c j e s u d w h i =
      let v : State svc = record w { clock = w.clock + 1 + 1 + 1 + 1; ids = w.ids + 1 + 1 } in
      rw (blacklist_token-ok svc token v) (
        set_jwt_session-Revoked svc j e u d (lifetime none svc.jwt_refresh_token_expire_minutes)
          (blacklist_token svc token v).1
          (blacklist_token-Revoked svc token c j e v (omega arith) i))

  refresh_token-Revoked :
      (token : Text) (c : Claims) (j : Text) (e : ℕ) (w w' : State svc)
      (result : RefreshTokenResult)
      → Issued svc token c j e w.clock
      → refresh_token svc token w ≡ (ok result, w')
      → Revoked svc j e w'
  unfolding refresh_token
  refresh_token-Revoked token c j e w w' result i h =
      let (found, w1, got, h1) =
        >>=-ok (refreshable svc token) (λ p. renew svc token (p.0) (p.1)) w w' result h in
      let later : w.clock ≤ w1.clock =
        rw (← ap (λ (p : Result (ℕ × SessionData) × State svc). p.1.clock) got)
          (refreshable-clock token w) in
      subst (Revoked svc j e) (ap (λ (p : Result RefreshTokenResult × State svc). p.1) h1)
        (renew-Revoked token c j e w.clock (found.0) (found.1) w1 later i)

  -- A refresh token serves once. Once a request with a refresh token has been answered with new
  -- tokens, a request with the same one that reaches the same cache at any later time is refused,
  -- be it a second before the token expires or earlier, or after its expiry.
  pub refresh_token_once :
      (token : Text) (c : Claims) (j : Text) (e : ℕ) (w w' v : State svc)
      (result : RefreshTokenResult)
      → Issued svc token c j e w.clock
      → refresh_token svc token w ≡ (ok result, w')
      → v.cache ≡ w'.cache
      → w'.clock ≤ v.clock
      → (svc.time (v.clock + 1) + 1000000 < e * 1000000) ⊎ (e < svc.time v.clock / 1000000)
      → (refresh_token svc token v).0 ≡ raise unauthorized
  unfolding refresh_token refreshable
  refresh_token_once token c j e w w' v result i h same later time =
      let listed : Revoked svc j e v = λ n le live.
        rw same (refresh_token-Revoked token c j e w w' result i h n (omega arith) live) in
      >>=-raise (refreshable svc token) (λ p. renew svc token (p.0) (p.1)) v unauthorized
        (>>=-raise (verify_token svc token) (claimed_session svc) v unauthorized
          (verify_token-Revoked svc token c j e v i listed time))

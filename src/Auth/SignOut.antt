-- ===== src/Auth/SignOut.antt =====
-- What a sign-out ends.
use ai_saga.Common.{
  ℕ, ◌+◌, ◌*◌, ◌/◌, ◌≤◌, ◌<◌, ◌≡◌, ◌∙◌, ◌⊎◌, sym, ap, Error, Result, none, some, Text, ok, raise,
  unauthorized, arith,
}
use ai_saga.Program.{>>=-raise, >>=-raise_all}
use ai_saga.Auth.Services.{AuthServices, Claims}
use ai_saga.Auth.Realm.{State}
use ai_saga.Auth.Cache.{
  get_key, session_key, get_value, get_jwt_session, delete_jwt_session, delete_value,
  is_jwt_token_blacklisted,
}
use ai_saga.Auth.Tokens.{verify_token, blacklist_token, is_revoked}
use ai_saga.Auth.Requests.{
  refresh_token, refreshable, claimed_session, renew, subject, logout, get_current_user,
  authenticated, active_user, as_unauthorized,
}
use ai_saga.Auth.Revocation.{
  Issued, Revoked, verify_token-Revoked, blacklist_token-Revoked, delete_jwt_session-Revoked,
  blacklist_token-ok,
}

module _ (svc : AuthServices) where
  verify_token-cache : (token : Text) (w : State svc) → (verify_token svc token w).1.cache ≡ w.cache
  unfolding verify_token is_revoked is_jwt_token_blacklisted get_value
  verify_token-cache token w = ground arith

  claimed_session_gone :
      (u : ℕ) (c : Claims) (w : State svc)
      → c.sub ≡ some (svc.uuid_text u)
      → svc.redis.read (svc.time w.clock) (get_key (session_key svc u)) w.cache ≡ none
      → (claimed_session svc c w).0 ≡ raise unauthorized
  unfolding claimed_session subject get_jwt_session get_value
  claimed_session_gone u c w h k = ground (arith, svc.parse_uuid-uuid_text u)

  verify_token-raise :
      (token : Text) (w : State svc) (x : Error)
      → (verify_token svc token w).0 ≡ raise x
      → x ≡ unauthorized
  unfolding verify_token is_revoked is_jwt_token_blacklisted get_value
  verify_token-raise token w x h = ground arith

  verify_token-decoded :
      (token : Text) (w : State svc) (c : Claims)
      → (verify_token svc token w).0 ≡ ok c
      → svc.decode (svc.time w.clock) token ≡ some c
  unfolding verify_token is_revoked is_jwt_token_blacklisted get_value
  verify_token-decoded token w c h = ground arith

  -- Without a session no token of the user is renewed.
  refresh_token_gone :
      (u : ℕ) (other : Text) (d : Claims) (v : State svc)
      → ((t : ℕ) → svc.redis.read t (get_key (session_key svc u)) v.cache ≡ none)
      → svc.decode (svc.time v.clock) other ≡ some d
      → d.sub ≡ some (svc.uuid_text u)
      → (refresh_token svc other v).0 ≡ raise unauthorized
  unfolding refresh_token refreshable
  refresh_token_gone u other d v gone read sub =
      >>=-raise (refreshable svc other) (λ p. renew svc other (p.0) (p.1)) v unauthorized
        (>>=-raise_all (verify_token svc other) (claimed_session svc) v unauthorized
          (λ c h.
            let same = sym read ∙ verify_token-decoded other v c h in
            claimed_session_gone u c _ (cc) (rw (verify_token-cache other v) (gone _)))
          (verify_token-raise other v))

  authenticated_refused :
      (token : Text) (v : State svc)
      → (verify_token svc token v).0 ≡ raise unauthorized
      → (get_current_user svc token v).0 ≡ raise unauthorized
  unfolding get_current_user authenticated as_unauthorized
  authenticated_refused token v h =
      >>=-raise (authenticated svc token) (active_user svc) v unauthorized (ap as_unauthorized h)

  -- What a sign-out ends. It always succeeds; from then on the access token that it was made with is
  -- refused, be it a second before the token expires or earlier, or after its expiry; and as long as
  -- the cache is as the sign-out left it, so is the renewal of every token for the user.
  pub logout_lem :
      (u : ℕ) (token other : Text) (c d : Claims) (j : Text) (e : ℕ) (w v : State svc)
      → Issued svc token c j e w.clock
      → v.cache ≡ (logout svc u token w).1.cache
      → (logout svc u token w).1.clock ≤ v.clock
      → (svc.time (v.clock + 1) + 1000000 < e * 1000000) ⊎ (e < svc.time v.clock / 1000000)
      → svc.decode (svc.time v.clock) other ≡ some d
      → d.sub ≡ some (svc.uuid_text u)
      → ((logout svc u token w).0 ≡ ok tt)
        × ((get_current_user svc token v).0 ≡ raise unauthorized)
        × ((refresh_token svc other v).0 ≡ raise unauthorized)
  unfolding logout delete_jwt_session delete_value blacklist_token
  logout_lem u token other c d j e w v i same later time read sub =
      let done = blacklist_token-ok svc token w in
      let out : logout svc u token w ≡ delete_jwt_session svc u (blacklist_token svc token w).1 =
        rw done in
      let left = ap (λ (p : Result Unit × State svc). p.1) out in
      let gone : (t : ℕ) → svc.redis.read t (get_key (session_key svc u)) v.cache ≡ none =
        λ t. rw (same, left) (svc.redis.read-remove_self t _ _) in
      let listed : Revoked svc j e (logout svc u token w).1 = rw left (
        delete_jwt_session-Revoked svc j e u (blacklist_token svc token w).1
          (blacklist_token-Revoked svc token c j e w (omega arith) i)) in
      (
        ap (λ (p : Result Unit × State svc). p.0) out,
        authenticated_refused token v (
            verify_token-Revoked svc token c j e v i
              (λ n le live. rw same (listed n (omega arith) live)) time),
        refresh_token_gone u other d v gone read sub,
      )

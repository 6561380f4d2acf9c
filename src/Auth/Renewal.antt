-- ===== src/Auth/Renewal.antt =====
-- Renewals with the token that a renewal handed out.
use ai_saga.Common.{ℕ, ◌+◌, ◌*◌, ◌/◌, ◌≤◌, ◌<◌, ◌≡◌, ◌≢◌, ◌∙◌, sym, ap, none, some, Text, ok, arith}
use ai_saga.Program.{>>=-ok, >>=-step}
use ai_saga.Auth.Services.{AuthServices, Claims, SessionData}
use ai_saga.Auth.Realm.{State}
use ai_saga.Auth.Cache.{get_key, session_key, blacklist_key, set_value, set_jwt_session}
use ai_saga.Auth.Tokens.{verify_token, token_id}
use ai_saga.Auth.Requests.{RefreshTokenResult, refresh_token, refreshable, claimed_session, renew}
use ai_saga.Auth.Unlisted.{entry, refreshable-OnlyReads}
use ai_saga.Auth.Renewed.{
  token_id_lem, renewed_claims, renewed, renew_lem, session_kept, verify_token_fresh,
  claimed_session_found, renewed_claims-fields, renewed-token, left, left_lem, left-unlisted,
  expiry, renewed_claims-exp, expiry-later,
}

module _ (svc : AuthServices) where
  renewed_serves :
      (token : Text) (u : ℕ) (d : SessionData) (w v : State svc)
      → v.cache ≡ (left svc token u d w).cache
      → (left svc token u d w).clock ≤ v.clock
      → svc.time (v.clock + 1 + 1) / 1000000 < expiry svc w
      → entry svc (svc.time (v.clock + 1)) (svc.uuid_text (svc.uuid7 (w.ids + 1))) v ≡ none
      → (again : RefreshTokenResult) × (v' : State svc) × (refresh_token svc
            (svc.sign (renewed_claims svc u w))
            v
          ≡ (ok again, v'))
  unfolding refresh_token refreshable left set_jwt_session set_value
  renewed_serves token u d w v same later live free =
      let c = renewed_claims svc u w in
      let t = svc.sign c in
      let x = renewed_claims-exp svc u w in
      let v1 : State svc = record v { clock = v.clock + 1 + 1 } in
      let v2 : State svc = record v { clock = v.clock + 1 + 1 + 1 } in
      let (sub, jti, kind) = renewed_claims-fields svc u w in
      let soon = svc.time-mono v.clock (v.clock + 1 + 1) (omega arith) in
      let read = svc.decode-sign (svc.time v.clock) (expiry svc w) c x (omega arith) in
      let named =
        token_id_lem c (svc.uuid_text (svc.uuid7 (w.ids + 1))) jti
          (svc.uuid_text-ne-nil (svc.uuid7 (w.ids + 1))) in
      let kept =
        ap (svc.redis.read (svc.time (v.clock + 1 + 1)) (get_key (session_key svc u))) same
        ∙ session_kept svc token u d w (v.clock + 1 + 1) (expiry svc w) (omega arith) x live in
      (
        _,
        _,
        >>=-step (refreshable svc t) (λ p. renew svc t (p.0) (p.1)) v v2 (u, d)
              (>>=-step (verify_token svc t) (claimed_session svc) v v1 c
                  (verify_token_fresh svc t c _ v read named free)
                ∙ claimed_session_found svc u d c v1 sub kind kept)
            ∙ renew_lem svc t u d v2,
      )

  -- A refresh token that was just handed out serves. Where a request to renew is answered, a request
  -- with the new refresh token on the cache that the first left, at any later time, is answered with
  -- new tokens, as long as it ends a second or more before the setting's minutes have passed since
  -- the first began. The second identifier drawn must be new: not listed as revoked before the first
  -- request, and not the identifier of the old token.
  pub refresh_token_serves :
      (token : Text) (w w' v : State svc) (result : RefreshTokenResult)
      → refresh_token svc token w ≡ (ok result, w')
      → v.cache ≡ w'.cache
      → w'.clock ≤ v.clock
      → svc.time (v.clock + 1 + 1) + 1000000
        ≤ svc.time w.clock + svc.jwt_refresh_token_expire_minutes * 60 * 1000000
      → ((t : ℕ) → entry svc t (svc.uuid_text (svc.uuid7 (w.ids + 1))) w ≡ none)
      → ((n : ℕ) (o : Claims)
          → svc.decode (svc.time n) token ≡ some o
          → token_id o ≢ some (svc.uuid_text (svc.uuid7 (w.ids + 1))))
      → (again : RefreshTokenResult) × (v' : State svc) × (refresh_token svc result.refresh_token v
          ≡ (ok again, v'))
  unfolding refresh_token
  refresh_token_serves token w w' v result h same later within free other =
      let (found, w1, got, h1) =
        >>=-ok (refreshable svc token) (λ p. renew svc token (p.0) (p.1)) w w' result h in
      let u = found.0 in
      let d = found.1 in
      let reads = refreshable-OnlyReads svc token found w w1 got in
      let both = sym (renew_lem svc token u d w1) ∙ h1 in
      let handed : renewed svc u d w1 ≡ result = cc in
      let world : left svc token u d w1 ≡ w' = left_lem svc token u d w1 result w' h1 in
      let named : result.refresh_token ≡ svc.sign (renewed_claims svc u w1) =
        sym (ap (λ (r : RefreshTokenResult). r.refresh_token) handed) ∙ renewed-token svc u d w1 in
      let cached : v.cache ≡ (left svc token u d w1).cache =
        same ∙ ap (λ (x : State svc). x.cache) (sym world) in
      let i = svc.uuid_text (svc.uuid7 (w.ids + 1)) in
      let drawn : i ≡ svc.uuid_text (svc.uuid7 (w1.ids + 1)) =
        ap (λ n. svc.uuid_text (svc.uuid7 (n + 1))) (sym reads.ids) in
      let t = svc.time (v.clock + 1) in
      let key = get_key (blacklist_key svc i) in
      let unlisted : entry svc t i v ≡ none =
        ap (svc.redis.read t key) cached
        ∙ left-unlisted svc token u d w1 t i other
            (ap (svc.redis.read t key) reads.cache ∙ free t) in
      rw named (
        renewed_serves token u d w1 v cached (rw world later)
          (expiry-later svc w w1 (svc.time (v.clock + 1 + 1)) reads.clock within)
          (rw (← drawn) unlisted))

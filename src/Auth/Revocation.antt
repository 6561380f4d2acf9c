-- ===== src/Auth/Revocation.antt =====
-- Tokens that were revoked stay out, and refresh tokens serve once.
use ai_saga.Common.{
  ℕ, ◌∙◌, ◌+◌, ◌*◌, ◌≢◌, ltb, eqb, ◌/◌, ◌≤◌, ◌<◌, ◌≡◌, ◌⊎◌, inl, inr, ap, Option-cases, Option,
  none, some, true, false, Text, Result, ok, raise, unauthorized, arith,
}
use ai_saga.Auth.Services.{AuthServices, Claims, SessionData, revoked}
use ai_saga.Auth.Realm.{State}
use ai_saga.Auth.Cache.{
  get_key, blacklist_key, is_found, get_value, set_value, delete_value, set_jwt_session,
  delete_jwt_session, blacklist_jwt_token, is_jwt_token_blacklisted,
}
use ai_saga.Auth.Tokens.{
  token_id, seconds_left, is_revoked, revoke_id, verify_token, blacklist_token,
}
use ai_saga.Auth.Keys.{blacklist-ne-session}

module _ (svc : AuthServices) where
  -- At every later reading of the clock until a second before `e`, the identifier is listed.
  abbrev pub Revoked : Text → ℕ → State svc → Type 0
  Revoked j e w =
      (n : ℕ)
      → w.clock ≤ n
      → svc.time n + 1000000 < e * 1000000
      → svc.redis.read (svc.time n) (get_key (blacklist_key svc j)) w.cache ≡ some revoked

  revoke_id-clock :
      (o : Option Text) (exp : Option ℕ) (w : State svc) → w.clock ≤ (revoke_id svc o exp w).1.clock
  unfolding revoke_id blacklist_jwt_token set_value
  revoke_id-clock none exp w = omega arith
  revoke_id-clock (some j) none w = omega arith
  revoke_id-clock (some j) (some e) w = ground arith

  -- The entry that `revoke_id` makes for a token with time left.
  listed : Text → ℕ → State svc → State svc
  listed j e w = record w {
    clock = w.clock + 1 + 1;
    cache =
        svc.redis.write (svc.time (w.clock + 1)) (seconds_left e (svc.time w.clock))
          (get_key (blacklist_key svc j)) revoked w.cache;
  }

  revoke_id-eq-listed :
      (j : Text) (e : ℕ) (w : State svc)
      → eqb e 0 ≡ false
      → ltb 0 (seconds_left e (svc.time w.clock)) ≡ true
      → (revoke_id svc (some j) (some e) w).1 ≡ listed j e w
  unfolding revoke_id blacklist_jwt_token set_value listed
  revoke_id-eq-listed j e w h k = rw (h, k)

  -- The entry outlives every reading that is a second short of the expiry.
  revoke_id-Revoked :
      (j : Text) (e : ℕ) (w : State svc) → Revoked j e (revoke_id svc (some j) (some e) w).1
  unfolding listed seconds_left
  revoke_id-Revoked j e w n le live =
      let start = svc.time-mono w.clock n (omega (arith, revoke_id-clock (some j) (some e) w)) in
      let some_left : seconds_left e (svc.time w.clock) ≢ 0 = λ z. omega arith in
      let same = revoke_id-eq-listed j e w (ground arith) (ground arith) in
      let wrote = svc.time-mono w.clock (w.clock + 1) (omega arith) in
      rw same (
        svc.redis.read-write_self (svc.time (w.clock + 1)) (svc.time n) _ _ _ _
          (svc.time-mono (w.clock + 1) n (omega (arith, ap (λ (v : State svc). v.clock) same)))
          (omega arith))

  pub blacklist_token-clock :
      (token : Text) (w : State svc) → w.clock ≤ (blacklist_token svc token w).1.clock
  unfolding blacklist_token
  blacklist_token-clock token w = elim (Option-cases (svc.decode (svc.time w.clock) token)) [
    | inl e0 ↦ rw e0 (omega arith)
    | inr (d, e1) ↦
        rw e1 (omega (arith, revoke_id-clock (token_id d) d.exp (record w { clock = w.clock + 1 })))
  ]

  pub blacklist_token-ok : (token : Text) (w : State svc) → (blacklist_token svc token w).0 ≡ ok tt
  unfolding blacklist_token revoke_id blacklist_jwt_token set_value
  blacklist_token-ok token w = ground arith

  module _ (token : Text) (c : Claims) (j : Text) (e : ℕ) where
    -- The token with these claims, identifier and expiry; the clock was once read as `s`.
    pub record Issued (s : ℕ) : Type 0 where
      pub decoded : svc.decode (svc.time s) token ≡ some c
      pub identified : token_id c ≡ some j
      pub expires : c.exp ≡ some e

    pub verify_token-Revoked :
        {s : ℕ} (w : State svc)
        → Issued s
        → Revoked j e w
        → (svc.time (w.clock + 1) + 1000000 < e * 1000000) ⊎ (e < svc.time w.clock / 1000000)
        → (verify_token svc token w).0 ≡ raise unauthorized
    unfolding verify_token is_revoked is_jwt_token_blacklisted get_value is_found
    verify_token-Revoked {s} w i r (inl live) =
        elim (Option-cases (svc.decode (svc.time w.clock) token)) [
          | inl e0 ↦ rw e0
          | inr (d, e1) ↦
              let same = svc.decode-agree (svc.time s) (svc.time w.clock) token c d i.decoded e1 in
              let listed = r (w.clock + 1) (omega arith) live in
              rw (e1, ← same, i.identified, listed)
        ]
    verify_token-Revoked {s} w i r (inr over) =
        elim (Option-cases (svc.decode (svc.time w.clock) token)) [
          | inl e0 ↦ rw e0
          | inr (d, e1) ↦
              let same = svc.decode-agree (svc.time s) (svc.time w.clock) token c d i.decoded e1 in
              let late = svc.decode-exp (svc.time w.clock) e token c (rw same e1) i.expires in
              absurd (omega arith)
        ]

    -- Revoking works on a token that was read before and has a second left.
    pub blacklist_token-Revoked :
        {s : ℕ} (w : State svc)
        → s ≤ w.clock
        → Issued s
        → Revoked j e (blacklist_token svc token w).1
    unfolding blacklist_token
    blacklist_token-Revoked {s} w h i n le live =
        let v : State svc = record w { clock = w.clock + 1 } in
        let before = svc.time-mono s w.clock h in
        let after = svc.time-mono w.clock n (omega (arith, blacklist_token-clock token w)) in
        let read =
          svc.decode-later (svc.time s) (svc.time w.clock) e token c i.decoded i.expires before
            (omega arith) in
        let same : blacklist_token svc token w ≡ revoke_id svc (some j) (some e) v =
          rw (read, i.identified, i.expires) in
        rw same (
          revoke_id-Revoked j e v n
            (omega (arith, ap (λ (p : Result Unit × State svc). p.1.clock) same)) live)

  -- What the other writes leave alone.
  pub set_jwt_session-Revoked :
      (j : Text) (e u : ℕ) (d : SessionData) (x : ℕ) (w : State svc)
      → Revoked j e w
      → Revoked j e (set_jwt_session svc u d x w).1
  unfolding set_jwt_session set_value
  set_jwt_session-Revoked j e u d x w r n le live =
      svc.redis.read-write_other _ _ _ _ _ _ _ (blacklist-ne-session svc u j)
      ∙ r n (omega arith) live

  pub delete_jwt_session-Revoked :
      (j : Text) (e u : ℕ) (w : State svc)
      → Revoked j e w
      → Revoked j e (delete_jwt_session svc u w).1
  unfolding delete_jwt_session delete_value
  delete_jwt_session-Revoked j e u w r n le live =
      svc.redis.read-remove_other _ _ _ _ (blacklist-ne-session svc u j) ∙ r n le live

-- ===== src/Auth/Unlisted.antt =====
-- What of the realm a refresh request leaves alone before it answers, and the identifiers that the
-- revocation of a token leaves off the list.
use ai_saga.Common.{
  ℕ, ◌≤◌, ◌≡◌, ◌≢◌, inl, inr, ap, sym, refl, ◌+◌, Option-cases, Option, none, some, Text, ok, arith,
}
use ai_saga.Program.{>>=-ok}
use ai_saga.Auth.Services.{AuthServices, Claims, SessionData, CacheValue}
use ai_saga.Auth.Realm.{State}
use ai_saga.Auth.Cache.{
  get_key, blacklist_key, is_found, get_value, set_value, get_jwt_session, set_jwt_session,
  blacklist_jwt_token, is_jwt_token_blacklisted,
}
use ai_saga.Auth.Tokens.{token_id, is_revoked, revoke_id, verify_token, blacklist_token}
use ai_saga.Auth.Requests.{refreshable, claimed_session}
use ai_saga.Auth.Keys.{blacklist-ne-session}

module _ (svc : AuthServices) where
  -- The realm after something that only reads it.
  pub record OnlyReads (w w' : State svc) : Type 0 where
    pub ids : w'.ids ≡ w.ids
    pub cache : w'.cache ≡ w.cache
    pub clock : w.clock ≤ w'.clock

  verify_token-OnlyReads : (token : Text) (w : State svc) → OnlyReads w (verify_token svc token w).1
  unfolding verify_token is_revoked is_jwt_token_blacklisted get_value is_found
  verify_token-OnlyReads token w = record {
    ids = ground arith;
    cache = ground arith;
    clock = ground arith;
  }

  claimed_session-OnlyReads : (c : Claims) (w : State svc) → OnlyReads w (claimed_session svc c w).1
  unfolding claimed_session get_jwt_session get_value
  claimed_session-OnlyReads c w = record {
    ids = ground arith;
    cache = ground arith;
    clock = ground arith;
  }

  pub refreshable-OnlyReads :
      (token : Text) (found : ℕ × SessionData) (w w' : State svc)
      → refreshable svc token w ≡ (ok found, w')
      → OnlyReads w w'
  unfolding refreshable
  refreshable-OnlyReads token found w w' h =
      let (c, v, read, rest) = >>=-ok (verify_token svc token) (claimed_session svc) w w' found h in
      let first = verify_token-OnlyReads token w in
      let second = claimed_session-OnlyReads c v in
      let mid : (verify_token svc token w).1 ≡ v = ap (λ p. p.1) read in
      let end : (claimed_session svc c v).1 ≡ w' = ap (λ p. p.1) rest in
      record {
        ids = grind (arith, first.ids, second.ids);
        cache = grind (arith, first.cache, second.cache);
        clock = grind (arith, first.clock, second.clock);
      }

  blacklist_key-inj :
      (i j : Text) → get_key (blacklist_key svc i) ≡ get_key (blacklist_key svc j) → i ≡ j
  unfolding get_key blacklist_key
  blacklist_key-inj i j h = ground arith

  -- What is read under the key of an identifier.
  abbrev pub entry : ℕ → Text → State svc → Option CacheValue
  entry t i w = svc.redis.read t (get_key (blacklist_key svc i)) w.cache

  revoke_id-other :
      (t : ℕ) (i : Text) (o : Option Text) (exp : Option ℕ) (w : State svc)
      → o ≢ some i
      → entry t i (revoke_id svc o exp w).1 ≡ entry t i w
  unfolding revoke_id blacklist_jwt_token set_value
  revoke_id-other t i none exp w n = refl
  revoke_id-other t i (some j) none w n = refl
  revoke_id-other t i (some j) (some e) w n =
      let apart : get_key (blacklist_key svc i) ≢ get_key (blacklist_key svc j) =
        λ same. n (ap some (blacklist_key-inj j i (sym same))) in
      grind (arith, svc.redis.read-write_other)

  pub blacklist_token-other :
      (t : ℕ) (i token : Text) (w : State svc)
      → ((c : Claims) → svc.decode (svc.time w.clock) token ≡ some c → token_id c ≢ some i)
      → entry t i (blacklist_token svc token w).1 ≡ entry t i w
  unfolding blacklist_token
  blacklist_token-other t i token w other =
      elim (Option-cases (svc.decode (svc.time w.clock) token)) [
        | inl e0 ↦ rw e0 refl
        | inr (c, e1) ↦
            rw e1 (
              revoke_id-other t i (token_id c) c.exp (record w { clock = w.clock + 1 })
                (other c e1))
      ]

  pub set_jwt_session-other :
      (t : ℕ) (i : Text) (u : ℕ) (d : SessionData) (x : ℕ) (w : State svc)
      → entry t i (set_jwt_session svc u d x w).1 ≡ entry t i w
  unfolding set_jwt_session set_value
  set_jwt_session-other t i u d x w =
      svc.redis.read-write_other _ _ _ _ _ _ _ (blacklist-ne-session svc u i)

-- ===== src/Auth/Gate.antt =====
-- Who passes as the current user, and why others do not.
use ai_saga.Common.{
  ℕ, ◌+◌, ◌≡◌, ◌⊎◌, refl, inl, inr, Option-cases, Bool-cases, Result-cases, Option, none, some, [],
  ◌∷◌, true, false, Result, Text, Error, ok, raise, unauthorized, value_error, arith,
}
use ai_saga.Program.{◌>>=◌}
use ai_saga.Auth.Entities.{UserEntity, find_user_by_id}
use ai_saga.Auth.Services.{AuthServices, Claims, CacheValue}
use ai_saga.Auth.Realm.{State}
use ai_saga.Auth.Cache.{get_key, blacklist_key, is_found, get_value, is_jwt_token_blacklisted}
use ai_saga.Auth.Tokens.{token_id, verify_token, is_revoked}
use ai_saga.Auth.Requests.{
  get_current_user, authenticated, active_user, claimed_user, subject, as_unauthorized,
}

module _ (svc : AuthServices) where
  -- No entry for the identifier of a token, if it has one.
  abbrev Unrevoked : Option Text → ℕ → State svc → Type 0
  Unrevoked none n w = Unit {0}
  Unrevoked (some j) n w =
      svc.redis.read (svc.time n) (get_key (blacklist_key svc j)) w.cache ≡ none

  -- The token is valid and not revoked, and its subject is an active user, the one returned.
  pub record Admits (token : Text) (w : State svc) (u : UserEntity) : Type 0 where
    pub claims : Claims
    pub user_id : ℕ
    pub name : Text
    pub valid : svc.decode (svc.time w.clock) token ≡ some claims
    pub listed : Unrevoked (token_id claims) (w.clock + 1) w
    pub named : claims.sub ≡ some name
    pub parsed : svc.parse_uuid name ≡ some user_id
    pub present : find_user_by_id user_id w.users ≡ some u
    pub active : u.is_active ≡ true

  -- Why a token is refused: it is not valid, its identifier is revoked, it names no user, or a user
  -- that is unknown or not active.
  pub data Denied (token : Text) (w : State svc) : Type 0 where
    invalid : svc.decode (svc.time w.clock) token ≡ none → Denied token w
    revoked :
        (c : Claims) (j : Text) (v : CacheValue)
        → svc.decode (svc.time w.clock) token ≡ some c
        → token_id c ≡ some j
        → svc.redis.read (svc.time (w.clock + 1)) (get_key (blacklist_key svc j)) w.cache ≡ some v
        → Denied token w
    nameless :
        (c : Claims)
        → svc.decode (svc.time w.clock) token ≡ some c
        → (c.sub ≡ none) ⊎ (c.sub ≡ some [])
        → Denied token w
    unknown :
        (c : Claims) (t : Text) (i : ℕ)
        → svc.decode (svc.time w.clock) token ≡ some c
        → c.sub ≡ some t
        → svc.parse_uuid t ≡ some i
        → find_user_by_id i w.users ≡ none
        → Denied token w
    inactive :
        (c : Claims) (t : Text) (i : ℕ) (u : UserEntity)
        → svc.decode (svc.time w.clock) token ≡ some c
        → c.sub ≡ some t
        → svc.parse_uuid t ≡ some i
        → find_user_by_id i w.users ≡ some u
        → u.is_active ≡ false
        → Denied token w

  -- The token is valid and not revoked, but its subject is no identifier.
  pub record Misnames (token : Text) (w : State svc) : Type 0 where
    pub claims : Claims
    pub name : Text
    pub valid : svc.decode (svc.time w.clock) token ≡ some claims
    pub listed : Unrevoked (token_id claims) (w.clock + 1) w
    pub named : claims.sub ≡ some name
    pub unparsed : svc.parse_uuid name ≡ none

  verify_token-Denied :
      (token : Text) (w : State svc) (e : Error)
      → (verify_token svc token w).0 ≡ raise e
      → Denied token w
  unfolding verify_token is_revoked is_jwt_token_blacklisted get_value is_found
  verify_token-Denied token w e h = elim (Option-cases (svc.decode (svc.time w.clock) token)) [
    | inl bad ↦ invalid bad
    | inr (c, read) ↦ elim (Option-cases (token_id c)) [
      | inl bare ↦ ground arith
      | inr (j, named) ↦
          elim (Option-cases
            (svc.redis.read (svc.time (w.clock + 1)) (get_key (blacklist_key svc j)) w.cache)) [
              | inl free ↦ ground arith
              | inr (v, listed) ↦ revoked c j v read named listed
            ]
    ]
  ]

  verify_token-Admits :
      (token : Text) (w : State svc) (c : Claims)
      → (verify_token svc token w).0 ≡ ok c
      → (svc.decode (svc.time w.clock) token ≡ some c)
        × Unrevoked (token_id c) (w.clock + 1) w
        × ((verify_token svc token w).1.users ≡ w.users)
  unfolding verify_token is_revoked is_jwt_token_blacklisted get_value is_found
  verify_token-Admits token w c h = (ground arith, ground arith, ground arith)

  active_user-world : (c : Claims) (w : State svc) → (active_user svc c w).1 ≡ w
  unfolding active_user
  active_user-world c w = ground arith

  verify_token-tables :
      (token : Text) (w : State svc)
      → ((verify_token svc token w).1.users ≡ w.users)
        × ((verify_token svc token w).1.accounts ≡ w.accounts)
        × ((verify_token svc token w).1.cache ≡ w.cache)
  unfolding verify_token is_revoked is_jwt_token_blacklisted get_value
  verify_token-tables token w = (ground arith, ground arith, ground arith)

  -- The request after the token was verified with the outcome `r`.
  admitted : Result Claims → State svc → Result UserEntity × State svc
  admitted (ok c) w = active_user svc c w
  admitted (raise e) w = (raise unauthorized, w)

  get_current_user-eq-admitted :
      (token : Text) (w : State svc)
      → get_current_user svc token w
        ≡ admitted (verify_token svc token w).0 (verify_token svc token w).1
  unfolding get_current_user authenticated as_unauthorized admitted
  get_current_user-eq-admitted token w = after (verify_token svc token w)
    where
      after :
          (p : Result Claims × State svc)
          → ((λ (v : State svc). (as_unauthorized p.0, p.1)) >>= active_user svc) w
            ≡ admitted p.0 p.1
      after (ok c, v) = refl
      after (raise e, v) = refl

  admitted-world : (r : Result Claims) (w : State svc) → (admitted r w).1 ≡ w
  unfolding admitted
  admitted-world (ok c) w = active_user-world c w
  admitted-world (raise e) w = refl

  admitted_raise : (x : Error) (w : State svc) → (admitted (raise x) w).0 ≡ raise unauthorized
  unfolding admitted
  admitted_raise x w = refl

  -- What the part after a token that was verified comes to.
  active_user-outcome :
      (token : Text) (w v : State svc) (c : Claims)
      → svc.decode (svc.time w.clock) token ≡ some c
      → Unrevoked (token_id c) (w.clock + 1) w
      → v.users ≡ w.users
      → ((u : UserEntity) × ((active_user svc c v).0 ≡ ok u) × Admits token w u)
        ⊎ (((active_user svc c v).0 ≡ raise unauthorized) × Denied token w)
        ⊎ (((active_user svc c v).0 ≡ raise value_error) × Misnames token w)
  unfolding active_user claimed_user subject
  active_user-outcome token w v c valid listed same = elim (Option-cases c.sub) [
    | inl e0 ↦ inr (inl (ground arith, nameless c valid (inl e0)))
    | inr ([], e0) ↦ inr (inl (ground arith, nameless c valid (inr e0)))
    | inr (x ∷ xs, e0) ↦
        let t = x ∷ xs in
        elim (Option-cases (svc.parse_uuid t)) [
          | inl e1 ↦ inr (
              inr (
                ground arith,
                record {
                  claims = c;
                  name = t;
                  valid = valid;
                  listed = listed;
                  named = e0;
                  unparsed = e1;
                },
              ))
          | inr (i, e1) ↦ elim (Option-cases (find_user_by_id i w.users)) [
            | inl e2 ↦ inr (inl (grind arith, unknown c t i valid e0 e1 e2))
            | inr (u, e2) ↦ elim (Bool-cases u.is_active) [
              | inr e3 ↦ inr (inl (grind arith, inactive c t i u valid e0 e1 e2 e3))
              | inl e3 ↦ inl (
                u,
                grind arith,
                record {
                  claims = c;
                  user_id = i;
                  name = t;
                  valid = valid;
                  listed = listed;
                  named = e0;
                  parsed = e1;
                  present = e2;
                  active = e3;
                },
              )
            ]
          ]
        ]
  ]

  -- The outcomes of a check of the current user: the user is admitted, or the request is refused as
  -- unauthorized for a reason, or fails on a subject that is no identifier; and the world but for
  -- its clock is as it was.
  abbrev pub IsGated : Text → State svc → Type 0
  IsGated token w =
      (((u : UserEntity) × ((get_current_user svc token w).0 ≡ ok u) × Admits token w u)
        ⊎ (((get_current_user svc token w).0 ≡ raise unauthorized) × Denied token w)
        ⊎ (((get_current_user svc token w).0 ≡ raise value_error) × Misnames token w))
      × ((get_current_user svc token w).1.users ≡ w.users)
      × ((get_current_user svc token w).1.accounts ≡ w.accounts)
      × ((get_current_user svc token w).1.cache ≡ w.cache)

  -- Who passes. A request with a bearer token is let through as a user if the token is valid and not
  -- revoked, and its subject is an active user, the one returned. It is refused as unauthorized if
  -- the token is not valid, is revoked, or names no user, an unknown or an inactive one; and it
  -- fails with the error of a bad value if a valid token that is not revoked has a subject that is
  -- no identifier. Tables and cache are only read.
  pub get_current_user-IsGated : (token : Text) (w : State svc) → IsGated token w
  unfolding admitted
  get_current_user-IsGated token w =
      let tables = verify_token-tables token w in
      rw
        (
          get_current_user-eq-admitted token w,
          admitted-world (verify_token svc token w).0 (verify_token svc token w).1,
        )
        (
          elim (Result-cases (verify_token svc token w).0) [
            | inl (c, e) ↦
                let (valid, listed, users) = verify_token-Admits token w c e in
                rw e (active_user-outcome token w (verify_token svc token w).1 c valid listed users)
            | inr (x, e) ↦ rw e (
                inr (
                  inl (
                    admitted_raise x (verify_token svc token w).1,
                    verify_token-Denied token w x e,
                  )))
          ],
          tables.0,
          tables.1,
          tables.2,
        )

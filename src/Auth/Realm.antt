-- ===== src/Auth/Realm.antt =====
-- The state that signing in works on, and the reads of the outside.
use ai_saga.Common.{ℕ, ◌+◌, List, ok}
use ai_saga.Program.{Program}
use ai_saga.Auth.Entities.{UserEntity, SocialAccountEntity}
use ai_saga.Auth.Services.{AuthServices, GoogleRequest, GoogleReply}

pub record Realm (C : Type 0) : Type 0 where
  pub users : List UserEntity
  pub accounts : List SocialAccountEntity
  pub cache : C
  -- how often the clock was read, an identifier drawn, Google asked
  pub clock : ℕ
  pub ids : ℕ
  pub calls : ℕ

module _ (svc : AuthServices) where
  abbrev pub State : Type 0
  State = Realm svc.redis.Cache

  abbrev pub Act : Type 0 → Type 0
  Act A = Program State A

  -- Each reading of the clock: `get_utc_datetime`, and the clocks of Redis and of `jwt.decode`.
  abbrev pub now : Act ℕ
  now w = (ok (svc.time w.clock), record w { clock = w.clock + 1 })

  -- `get_uuid7`
  abbrev pub new_id : Act ℕ
  new_id w = (ok (svc.uuid7 w.ids), record w { ids = w.ids + 1 })

  -- `httpx.AsyncClient.request`
  abbrev pub request : GoogleRequest → Act GoogleReply
  request r w = (ok (svc.send w.calls r), record w { calls = w.calls + 1 })

  abbrev pub users : Act (List UserEntity)
  users w = (ok w.users, w)

  abbrev pub accounts : Act (List SocialAccountEntity)
  accounts w = (ok w.accounts, w)

  abbrev pub set_users : List UserEntity → Act (Unit {0})
  set_users rows w = (ok tt, record w { users = rows })

  abbrev pub set_accounts : List SocialAccountEntity → Act (Unit {0})
  set_accounts rows w = (ok tt, record w { accounts = rows })

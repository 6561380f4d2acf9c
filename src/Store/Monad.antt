-- ===== src/Store/Monad.antt =====
-- The state of the world, with a random generator of type `G` and cached texts of type `S`, and
-- the programs over it. What was written stays written after a raise, until the request rolls it
-- back.
use ai_saga.Common.{ℕ, List, Text, ok, raise}
use ai_saga.Program.{Program}
pub use ai_saga.Program.{◌>>=◌, ◌>>◌, pure, lift, attempt}
use ai_saga.Store.Tables.{Db}

pub record World (G S : Type 0) : Type 0 where
  pub db : Db
  pub committed : Db
  pub cache : List (Text × S)
  -- how often the clock was read, an identifier drawn, an outside service called
  pub clock : ℕ
  pub ids : ℕ
  pub calls : ℕ
  pub gen : G

abbrev pub Action : Type 0 → Type 0 → Type 0 → Type 0
Action G S A = Program (World G S) A

module _ {G S : Type 0} where
  abbrev pub gets : {A : Type 0} → (Db → A) → Action G S A
  gets f w = (ok (f w.db), w)

  abbrev pub modify : (Db → Db) → Action G S (Unit {0})
  modify f w = (ok tt, record w { db = f w.db })

  -- `AsyncSession.commit`
  abbrev pub commit : Action G S (Unit {0})
  commit w = (ok tt, record w { committed = w.db })

  -- `get_domain_write_session`: the request commits, or rolls back and raises again.
  abbrev pub in_transaction : {A : Type 0} → Action G S A → Action G S A
  in_transaction m w =
      let (r, w') = m w in
      elim r [
        | ok a ↦ (ok a, record w' { committed = w'.db })
        | raise e ↦ (raise e, record w' { db = w'.committed })
      ]

-- ===== src/Turn/Ensures.antt =====
-- What an action promises: it leaves the committed data and the cache alone, and its result, if it
-- returns one, satisfies a predicate.
use ai_saga.Common.{◌≡◌, Result, ok, raise}
use ai_saga.Store.Monad.{World, Action}

abbrev pub Returns : {A : Type 0} → (A → Type 0) → Result A → Type 0
Returns P (ok a) = P a
Returns P (raise e) = Unit

abbrev pub Anything : {A : Type 0} → A → Type 0
Anything a = Unit

module _ {G S : Type 0} where
  pub record SameOutside (w w' : World G S) : Type 0 where
    pub committed : w'.committed ≡ w.committed
    pub cache : w'.cache ≡ w.cache

  abbrev pub Ensures : {A : Type 0} → (A → Type 0) → Action G S A → Type 0
  Ensures P m = (w : World G S) → SameOutside w (m w).1 × Returns P (m w).0

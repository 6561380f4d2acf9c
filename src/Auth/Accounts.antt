-- ===== src/Auth/Accounts.antt =====
-- What becomes of social accounts when one is disconnected.
use ai_saga.Common.{
  ℕ, suc, ◌<◌, ◌≡◌, ◌≢◌, ◌⊎◌, refl, inl, inr, List, [], ◌∷◌, length, none, some, true, ok, raise,
  not_found, bad_request, Option-cases, Bool-cases, eqb, leb, arith,
}
use ai_saga.Auth.Entities.{
  SocialAccountEntity, find_account_by_id, accounts_of_user, drop_account, find_user_by_id,
}
use ai_saga.Auth.Services.{AuthServices}
use ai_saga.Auth.Realm.{State}
use ai_saga.Auth.Requests.{disconnect_social_account, own_account}

-- The primary key of the table.
abbrev pub HasDistinctIds : List SocialAccountEntity → Type 0
HasDistinctIds [] = Unit
HasDistinctIds (a ∷ rows) = (find_account_by_id a.id rows ≡ none) × HasDistinctIds rows

drop_account_self :
    (i : ℕ) (rows : List SocialAccountEntity) → find_account_by_id i (drop_account i rows) ≡ none
unfolding find_account_by_id drop_account
drop_account_self i [] = refl
drop_account_self i (a ∷ rows) = ground (arith, drop_account_self i rows)

drop_account_missing :
    (i u : ℕ) (rows : List SocialAccountEntity)
    → find_account_by_id i rows ≡ none
    → drop_account i rows ≡ rows
unfolding find_account_by_id drop_account
drop_account_missing i u [] h = refl
drop_account_missing i u (a ∷ rows) h = ground (arith, drop_account_missing i u rows)

accounts_of_user-drop_account :
    (i u : ℕ) (rows : List SocialAccountEntity) (a : SocialAccountEntity)
    → HasDistinctIds rows
    → find_account_by_id i rows ≡ some a
    → a.user_id ≡ u
    → length (accounts_of_user u rows) ≡ suc (length (accounts_of_user u (drop_account i rows)))
unfolding find_account_by_id accounts_of_user drop_account
accounts_of_user-drop_account i u [] a d h own = ground arith
accounts_of_user-drop_account i u (b ∷ rows) a d h own =
    ground (arith, accounts_of_user-drop_account i u rows a, drop_account_missing i u rows)

-- The rows of other users stay.
accounts_of_user_other :
    (i u v : ℕ) (rows : List SocialAccountEntity) (a : SocialAccountEntity)
    → HasDistinctIds rows
    → find_account_by_id i rows ≡ some a
    → a.user_id ≡ u
    → v ≢ u
    → accounts_of_user v (drop_account i rows) ≡ accounts_of_user v rows
unfolding find_account_by_id accounts_of_user drop_account
accounts_of_user_other i u v [] a d h own other = refl
accounts_of_user_other i u v (b ∷ rows) a d h own other =
    ground (arith, accounts_of_user_other i u v rows a, drop_account_missing i u rows)

module _ (svc : AuthServices) (u i : ℕ) where
  -- The account `i` of the user `u` is gone, they keep another, and nothing else has changed.
  pub record Disconnects (w w' : State svc) : Type 0 where
    pub gone : find_account_by_id i w'.accounts ≡ none
    pub fewer :
        length (accounts_of_user u w.accounts) ≡ suc (length (accounts_of_user u w'.accounts))
    pub kept : 0 < length (accounts_of_user u w'.accounts)
    pub others : (v : ℕ) → v ≢ u → accounts_of_user v w'.accounts ≡ accounts_of_user v w.accounts
    pub same : w' ≡ record w { accounts = w'.accounts }

  -- What makes the account another's: the user is unknown, or no row of the table with this
  -- identifier is theirs.
  abbrev pub IsForeign : State svc → Type 0
  IsForeign w =
      (find_user_by_id u w.users ≡ none)
      ⊎ ((a : SocialAccountEntity) → find_account_by_id i w.accounts ≡ some a → a.user_id ≢ u)

  -- The outcomes of a request to disconnect.
  abbrev pub Disconnection : State svc → Type 0
  Disconnection w =
      ((w' : State svc) × (disconnect_social_account svc u i w ≡ (ok true, w')) × Disconnects w w')
      ⊎ ((disconnect_social_account svc u i w ≡ (raise not_found, w)) × IsForeign w)
      ⊎ ((disconnect_social_account svc u i w ≡ (raise bad_request, w))
          × (length (accounts_of_user u w.accounts) ≡ 1))

  -- Disconnecting never takes the last way in. With distinct identifiers, a request either takes away
  -- just that account and leaves the user another, or is refused and changes nothing: as not found,
  -- where the account is not theirs, or as a bad request, where it is the only one.
  pub disconnect_social_account-Disconnection :
      (w : State svc) → HasDistinctIds w.accounts → Disconnection w
  unfolding disconnect_social_account own_account
  disconnect_social_account-Disconnection w d = elim (Option-cases (find_user_by_id u w.users)) [
    | inl e0 ↦ inr (inl (rw e0, inl e0))
    | inr (known, e0) ↦ elim (Option-cases (find_account_by_id i w.accounts)) [
      | inl e1 ↦ inr (inl (rw (e0, e1), inr (λ a h. cc)))
      | inr (a, e1) ↦ elim (Bool-cases (eqb a.user_id u)) [
        | inr e2 ↦ inr (inl (rw (e0, e1, e2), inr (λ b h. ground arith)))
        | inl e2 ↦
            let count = accounts_of_user-drop_account i u w.accounts a d e1 (ground arith) in
            elim (Bool-cases (leb (length (accounts_of_user u w.accounts)) 1)) [
              | inl e3 ↦ inr (inr (rw (e0, e1, e2, e3), ground arith))
              | inr e3 ↦ inl (
                record w { accounts = drop_account i w.accounts },
                rw (e0, e1, e2, e3, e1),
                record {
                  gone = drop_account_self i w.accounts;
                  fewer = count;
                  kept = ground arith;
                  others = λ v other.
                      accounts_of_user_other i u v w.accounts a d e1 (ground arith) other;
                  same = refl;
                },
              )
            ]
      ]
    ]
  ]

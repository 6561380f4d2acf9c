-- ===== src/Auth/Identity.antt =====
-- The same account at the provider always signs the same user in.
use ai_saga.Common.{
  ℕ, ◌+◌, ◌≤◌, ◌≡◌, ◌∙◌, refl, ap, Bool, true, false, Bool-cases, Option-cases, Result-cases, inl,
  inr, Option, none, some, List, [], ◌∷◌, Text, text, text_eqb_iff, ok, raise, Result, arith, Error,
}
use ai_saga.Json.{Json, Fields, as_optional_text}
use ai_saga.Auth.Entities.{
  AuthProvider, UserEntity, SocialAccountEntity, find_user_by_id, find_user_by_email, save_user,
  provider_eqb, is_identity, find_account_by_provider, find_account_by_id, put_account, is_taken,
  save_account,
}
use ai_saga.Auth.Services.{AuthServices}
use ai_saga.Auth.Realm.{State}
use ai_saga.Auth.Login.{
  identity, user_of_account, complete_profile, register, write_account, link_account, join_user,
  user_of_email, user_of_sign_in, identify, save, item,
}

-- The user whose account it is.
owner : AuthProvider → Option Text → List SocialAccountEntity → Option ℕ
owner p i rows = elim (find_account_by_provider p i rows) [ none ↦ none | some a ↦ some a.user_id ]

has_user : ℕ → List UserEntity → Bool
has_user i rows = elim (find_user_by_id i rows) [ none ↦ false | some u ↦ true ]

find_user_by_id-id :
    (i : ℕ) (rows : List UserEntity) (u : UserEntity) → find_user_by_id i rows ≡ some u → u.id ≡ i
unfolding find_user_by_id
find_user_by_id-id i [] u h = ground arith
find_user_by_id-id i (r ∷ rows) u h = ground (arith, find_user_by_id-id i rows u)

has_user-save_user :
    (u : UserEntity) (rows : List UserEntity) → has_user u.id (save_user u rows) ≡ true
unfolding has_user find_user_by_id save_user
has_user-save_user u [] = ground arith
has_user-save_user u (r ∷ rows) = ground (arith, has_user-save_user u rows)

-- An inserted row is found under its identity.
owner-put_account :
    (a : SocialAccountEntity) (rows : List SocialAccountEntity)
    → find_account_by_id a.id rows ≡ none
    → is_taken a rows ≡ false
    → owner a.provider (some a.provider_user_id) (put_account a rows) ≡ some a.user_id
unfolding owner find_account_by_provider find_account_by_id is_taken put_account is_identity
    provider_eqb
owner-put_account a [] h k = ground (arith, text_eqb_iff a.provider_user_id a.provider_user_id)
owner-put_account a (r ∷ rows) h k = ground (arith, owner-put_account a rows)

module _ (svc : AuthServices) where
  write_account-owner :
      (a : SocialAccountEntity) (w : State svc)
      → find_account_by_id a.id w.accounts ≡ none
      → (write_account svc a w).0 ≡ ok tt
      → owner a.provider (some a.provider_user_id) (write_account svc a w).1.accounts
        ≡ some a.user_id
  unfolding write_account save_account owner
  write_account-owner a w h k = elim (Bool-cases (is_taken a w.accounts)) [
    | inr free ↦ ground (arith, owner-put_account a w.accounts h free)
    | inl taken ↦ ground arith
  ]

  link_account-owner :
      (u : ℕ) (p : AuthProvider) (i : Option Text) (info : Fields) (t : ℕ) (w : State svc)
      → find_account_by_id (svc.uuid7 w.ids) w.accounts ≡ none
      → (link_account svc u p i info t w).0 ≡ ok tt
      → owner p i (link_account svc u p i info t w).1.accounts ≡ some u
  unfolding link_account
  link_account-owner u p none info t w h k = ground arith
  link_account-owner u p (some i) info t w h k =
      write_account-owner _ (record w { ids = w.ids + 1 }) h k

  complete_profile-accounts :
      (u : UserEntity) (x : Json) (w : State svc)
      → ((complete_profile svc u x w).1.accounts ≡ w.accounts)
        × (w.ids ≤ (complete_profile svc u x w).1.ids)
  unfolding complete_profile save
  complete_profile-accounts u x w = (ground arith, ground arith)

  register-accounts :
      (email : Option Text) (info : Fields) (t : ℕ) (w : State svc)
      → ((register svc email info t w).1.accounts ≡ w.accounts)
        × (w.ids ≤ (register svc email info t w).1.ids)
  unfolding register save
  register-accounts email info t w = (ground arith, ground arith)

  user_of_email-accounts :
      (found : Option UserEntity) (email : Option Text) (info : Fields) (t : ℕ) (w : State svc)
      → ((user_of_email svc found email info t w).1.accounts ≡ w.accounts)
        × (w.ids ≤ (user_of_email svc found email info t w).1.ids)
  unfolding user_of_email
  user_of_email-accounts none email info t w = grind (arith, register-accounts)
  user_of_email-accounts (some u) email info t w = grind (arith, complete_profile-accounts)

  -- No account has an identifier that is still to be drawn.
  abbrev pub HasFreshIds : State svc → Type 0
  HasFreshIds w = (n : ℕ) → w.ids ≤ n → find_account_by_id (svc.uuid7 n) w.accounts ≡ none

  join_user-owner :
      (p : AuthProvider) (i : Option Text) (info : Fields) (t : ℕ) (w : State svc)
      (r : UserEntity × Bool)
      → HasFreshIds w
      → (join_user svc p i info t w).0 ≡ ok r
      → owner p i (join_user svc p i info t w).1.accounts ≡ some r.0.id
  unfolding join_user
  join_user-owner p i info t w r fresh h = elim (Result-cases (item info (text "email"))) [
    | inr (x, e0) ↦ absurd (ground arith)
    | inl (address, e0) ↦ elim (Result-cases (as_optional_text address)) [
      | inr (x, e1) ↦ absurd (ground arith)
      | inl (email, e1) ↦
          let (same, later) =
            user_of_email-accounts (find_user_by_email email w.users) email info t w in
          let step = user_of_email svc (find_user_by_email email w.users) email info t w in
          elim (Result-cases step.0) [
            | inr (x, e2) ↦ absurd (ground arith)
            | inl (who, e2) ↦
                let linked =
                  link_account-owner who.0.id p i info t step.1
                    (rw same (fresh step.1.ids later)) in
                ground arith
          ]
    ]
  ]

  user_of_sign_in-owner :
      (found : Option SocialAccountEntity) (p : AuthProvider) (i : Option Text) (info : Fields)
      (t : ℕ) (w : State svc) (r : UserEntity × Bool)
      → HasFreshIds w
      → find_account_by_provider p i w.accounts ≡ found
      → (user_of_sign_in svc found p i info t w).0 ≡ ok r
      → owner p i (user_of_sign_in svc found p i info t w).1.accounts ≡ some r.0.id
  unfolding user_of_sign_in user_of_account owner
  user_of_sign_in-owner none p i info t w r fresh e h = join_user-owner p i info t w r fresh h
  user_of_sign_in-owner (some a) p i info t w r fresh e h =
      elim (Option-cases (find_user_by_id a.user_id w.users)) [
        | inl g ↦ absurd (ground arith)
        | inr (u, g) ↦ ground (arith, find_user_by_id-id a.user_id w.users u)
      ]

  identify-owner :
      (p : AuthProvider) (info : Fields) (i : Option Text) (w : State svc) (r : UserEntity × Bool)
      → HasFreshIds w
      → as_optional_text (identity info) ≡ ok i
      → (identify svc p info w).0 ≡ ok r
      → (owner p i (identify svc p info w).1.accounts ≡ some r.0.id)
        × (has_user r.0.id (identify svc p info w).1.users ≡ true)
  unfolding identify save
  identify-owner p info i w r fresh e h =
      let v : State svc = record w { clock = w.clock + 1 } in
      let found = find_account_by_provider p i w.accounts in
      let step = user_of_sign_in svc found p i info (svc.time w.clock) v in
      elim (Result-cases step.0) [
        | inr (x, e1) ↦ absurd (ground arith)
        | inl (who, e1) ↦
            let owned =
              user_of_sign_in-owner found p i info (svc.time w.clock) v who (λ n l. fresh n l) refl
                e1 in
            let kept =
              has_user-save_user (record (who.0) { last_login_at = some (svc.time w.clock) })
                step.1.users in
            (ground arith, ground arith)
      ]

  identify_refused :
      (p : AuthProvider) (info : Fields) (w : State svc) (r : UserEntity × Bool) (x : Error)
      → as_optional_text (identity info) ≡ raise x
      → (identify svc p info w).0 ≡ ok r
      → ⊥
  unfolding identify
  identify_refused p info w r x e h = ground arith

  known_again :
      (p : AuthProvider) (info : Fields) (i : Option Text) (v : State svc) (u : ℕ)
      → as_optional_text (identity info) ≡ ok i
      → owner p i v.accounts ≡ some u
      → has_user u v.users ≡ true
      → (r : UserEntity) × (v' : State svc) × (identify svc p info v ≡ (ok (r, false), v'))
        × (r.id ≡ u)
        × (v'.accounts ≡ v.accounts)
        × (r.last_login_at ≡ some (svc.time v.clock))
  unfolding identify user_of_sign_in user_of_account save owner has_user
  known_again p info i v u e o k = elim (Option-cases (find_account_by_provider p i v.accounts)) [
    | inl f ↦ absurd (ground arith)
    | inr (a, f) ↦ elim (Option-cases (find_user_by_id a.user_id v.users)) [
      | inl g ↦ absurd (ground arith)
      | inr (r, g) ↦
          let now = svc.time v.clock in
          let u' : UserEntity = record r { last_login_at = some now } in
          (
            u',
            record v { clock = v.clock + 1; users = save_user u' v.users },
            rw (e, f, g, g),
            ground (arith, find_user_by_id-id a.user_id v.users r),
            refl,
            refl,
          )
    ]
  ]

  -- The same account signs the same user in. Once a sign-in through an account of the provider has
  -- gone through, where no account has an identifier still to be drawn, the next one through it on
  -- the tables that it left goes through too, whatever else the provider says of the user: it is the
  -- same user, not a new one, with the time of this sign-in as the last, and no account is added.
  pub identify_again :
      (p : AuthProvider) (info again : Fields) (w w' v : State svc) (u : UserEntity) (new : Bool)
      → HasFreshIds w
      → identify svc p info w ≡ (ok (u, new), w')
      → identity again ≡ identity info
      → v.users ≡ w'.users
      → v.accounts ≡ w'.accounts
      → (u' : UserEntity) × (v' : State svc) × (identify svc p again v ≡ (ok (u', false), v'))
        × (u'.id ≡ u.id)
        × (v'.accounts ≡ v.accounts)
        × (u'.last_login_at ≡ some (svc.time v.clock))
  identify_again p info again w w' v u new fresh h same us as' =
      let result = ap (λ (x : Result (UserEntity × Bool) × State svc). x.0) h in
      let world = ap (λ (x : Result (UserEntity × Bool) × State svc). x.1) h in
      elim (Result-cases (as_optional_text (identity info))) [
        | inr (x, e) ↦ absurd (identify_refused p info w (u, new) x e result)
        | inl (i, e) ↦
            let (owned, kept) = identify-owner p info i w (u, new) fresh e result in
            known_again p again i v u.id (ap as_optional_text same ∙ e) (rw (as', ← world) owned)
              (rw (us, ← world) kept)
      ]

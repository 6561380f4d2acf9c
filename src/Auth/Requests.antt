-- ===== src/Auth/Requests.antt =====
-- The other use cases of app/auth/application/use_cases with its queries, and `get_current_user` of
-- app/auth/dependencies.py.
use ai_saga.Common.{
  ℕ, Bool, true, false, not, ◌||◌, leb, eqb, if◌then◌else◌, length, Option, none, some, List, [],
  ◌∷◌, Text, text, text_eqb, Result, ok, raise, or_raise, raise_if, bad_request, not_found,
  type_error, unauthorized, value_error,
}
use ai_saga.Common.Int.{pos}
use ai_saga.Program.{◌>>=◌, ◌>>◌, pure, lift}
use ai_saga.Strings.{strip}
use ai_saga.Json.{Json, Fields, num, find, truthy}
use ai_saga.Auth.Entities.{
  UserEntity, SocialAccountEntity, find_user_by_id, find_account_by_id, accounts_of_user,
  drop_account, provider_value,
}
use ai_saga.Auth.Services.{AuthServices, Claims, SessionData}
use ai_saga.Auth.Realm.{Act, users, accounts, set_accounts}
use ai_saga.Auth.Cache.{
  set_jwt_session, get_jwt_session, delete_jwt_session, set_google_access_token,
  set_google_refresh_token, get_google_refresh_token,
}
use ai_saga.Auth.Tokens.{verify_token, blacklist_token, create_access_token, create_refresh_token}
use ai_saga.Auth.Google.{refresh_access_token}
use ai_saga.Auth.Login.{get_or, item, save}

pub record RefreshTokenResult : Type 0 where
  pub access_token : Text
  pub token_type : Text
  pub expires_in : ℕ
  pub refresh_token : Text

pub record UpdateUserProfileInput : Type 0 where
  pub name : Option Text
  pub profile_image_url : Option Text

-- `payload.get("type") != "refresh"`
unfoldable pub is_refresh : Claims → Bool
is_refresh c = elim c.kind [ none ↦ false | some k ↦ text_eqb k (text "refresh") ]

-- The rows that a user may disconnect: `not account or account.user_id != user_id`.
unfoldable pub own_account : ℕ → Option SocialAccountEntity → Result SocialAccountEntity
own_account user_id none = raise not_found
own_account user_id (some a) = if eqb a.user_id user_id then ok a else raise not_found

-- The name that a profile takes, `none` where the request has none.
unfoldable pub checked_name : Option Text → Result (Option Text)
unfolding strip
checked_name none = ok none
checked_name (some n) = elim (strip n) [ [] ↦ raise bad_request | x ∷ xs ↦ ok (some (x ∷ xs)) ]

unfoldable pub or_keep {ℓ} : {A : Type ℓ} → Option A → A → A
or_keep none old = old
or_keep (some new) old = new

unfoldable pub is_given {ℓ} : {A : Type ℓ} → Option A → Bool
is_given none = false
is_given (some a) = true

-- `[a for a in accounts if a.provider.value == provider]`, if a provider is given.
unfoldable pub of_provider : Option Text → List SocialAccountEntity → List SocialAccountEntity
unfolding provider_value
of_provider none rows = rows
of_provider (some []) rows = rows
of_provider (some (c ∷ cs)) [] = []
of_provider (some (c ∷ cs)) (a ∷ rows) =
    let rest = of_provider (some (c ∷ cs)) rows in
    if text_eqb (provider_value a.provider) (c ∷ cs) then a ∷ rest else rest

-- `except Exception` around `verify_token`.
unfoldable pub as_unauthorized {ℓ} : {A : Type ℓ} → Result A → Result A
as_unauthorized (ok a) = ok a
as_unauthorized (raise e) = raise unauthorized

module _ (svc : AuthServices) where
  -- `UUID(payload.get("sub"))`
  unfoldable pub subject : Option Text → Result ℕ
  subject none = raise type_error
  subject (some t) = or_raise (svc.parse_uuid t) value_error

  -- Whom the claims of a refresh token are for, and their session.
  unfoldable pub claimed_session : Claims → Act svc (ℕ × SessionData)
  unfolding is_refresh subject get_jwt_session
  claimed_session payload = do
    lift (raise_if (not (is_refresh payload)) unauthorized)
    user_id ← lift (subject payload.sub)
    found ← get_jwt_session svc user_id
    session_data ← lift (or_raise found unauthorized)
    pure (user_id, session_data)

  unfoldable pub refreshable : Text → Act svc (ℕ × SessionData)
  refreshable token = do payload ← verify_token svc token; claimed_session payload

  -- The new tokens; the old one is revoked, and the session kept for as long as the new one.
  unfoldable pub renew : Text → ℕ → SessionData → Act svc RefreshTokenResult
  renew token user_id session_data = do
    new_token ← create_access_token svc user_id session_data.email session_data.user_level none
    new_refresh ← create_refresh_token svc user_id none
    blacklist_token svc token
    set_jwt_session svc user_id session_data new_refresh.expires_in
    pure (record {
      access_token = new_token.access_token;
      token_type = new_token.token_type;
      expires_in = new_token.expires_in;
      refresh_token = new_refresh.refresh_token;
    })

  -- `RefreshTokenUseCase.execute`
  unfoldable pub refresh_token : Text → Act svc RefreshTokenResult
  refresh_token token = do found ← refreshable token; renew token (found.0) (found.1)

  -- `LogoutUseCase.execute`
  unfoldable pub logout : ℕ → Text → Act svc (Unit {0})
  logout user_id access_token = do blacklist_token svc access_token; delete_jwt_session svc user_id

  unfoldable pub authenticated : Text → Act svc Claims
  authenticated token w =
      (as_unauthorized (verify_token svc token w).0, (verify_token svc token w).1)

  -- `if not user_id`
  unfoldable pub claimed_user : Option Text → Result ℕ
  unfolding subject
  claimed_user none = raise unauthorized
  claimed_user (some []) = raise unauthorized
  claimed_user (some (c ∷ cs)) = subject (some (c ∷ cs))

  unfoldable pub active_user : Claims → Act svc UserEntity
  unfolding claimed_user find_user_by_id
  active_user payload = do
    user_id ← lift (claimed_user payload.sub)
    rows ← users svc
    user ← lift (or_raise (find_user_by_id user_id rows) unauthorized)
    lift (raise_if (not user.is_active) unauthorized)
    pure user

  unfoldable pub get_current_user : Text → Act svc UserEntity
  get_current_user token = do payload ← authenticated token; active_user payload

  -- `DisconnectSocialAccountUseCase.execute`
  unfoldable pub disconnect_social_account : ℕ → ℕ → Act svc Bool
  unfolding find_user_by_id find_account_by_id own_account accounts_of_user drop_account is_given
  disconnect_social_account user_id account_id = do
    known ← users svc
    lift (or_raise (find_user_by_id user_id known) not_found)
    rows ← accounts svc
    account ← lift (own_account user_id (find_account_by_id account_id rows))
    lift (raise_if (leb (length (accounts_of_user user_id rows)) 1) bad_request)
    set_accounts svc (drop_account account_id rows)
    pure (is_given (find_account_by_id account_id rows))

  -- `UpdateUserProfileUseCase.execute`
  unfoldable pub update_user_profile : ℕ → UpdateUserProfileInput → Act svc UserEntity
  unfolding find_user_by_id checked_name or_keep is_given save
  update_user_profile user_id input = do
    rows ← users svc
    user ← lift (or_raise (find_user_by_id user_id rows) not_found)
    name ← lift (checked_name input.name)
    let updated : UserEntity = record user {
      name = or_keep name user.name;
      profile_image_url = elim input.profile_image_url [
        | none ↦ user.profile_image_url
        | some url ↦ some url
      ];
    }
    if is_given name || is_given input.profile_image_url then save svc updated else pure user

  -- `if "refresh_token" in new_tokens`
  unfoldable pub keep_refresh_token : ℕ → Option Json → Act svc (Unit {0})
  unfolding set_google_refresh_token
  keep_refresh_token user_id none = pure tt
  keep_refresh_token user_id (some t) = set_google_refresh_token svc user_id t

  -- `RefreshGoogleTokenUseCase.execute`
  unfoldable pub refresh_google_token : ℕ → Act svc Fields
  unfolding get_google_refresh_token truthy refresh_access_token get_or item set_google_access_token
      keep_refresh_token
  refresh_google_token user_id = do
    found ← get_google_refresh_token svc user_id
    held ← lift (or_raise found bad_request)
    lift (raise_if (not (truthy held)) bad_request)
    tokens ← refresh_access_token svc held
    access_token ← lift (item tokens (text "access_token"))
    set_google_access_token svc user_id access_token
        (get_or tokens (text "expires_in") (num (pos 3600)))
    keep_refresh_token user_id (find (text "refresh_token") tokens)
    pure tokens

  -- `GetUserQuery.execute` and `GetSocialAccountsQuery.execute`
  unfoldable pub get_user : ℕ → Act svc (Option UserEntity)
  unfolding find_user_by_id
  get_user user_id = do rows ← users svc; pure (find_user_by_id user_id rows)

  unfoldable pub get_social_accounts : ℕ → Option Text → Act svc (List SocialAccountEntity)
  unfolding accounts_of_user of_provider
  get_social_accounts user_id provider = do
    rows ← accounts svc
    pure (of_provider provider (accounts_of_user user_id rows))

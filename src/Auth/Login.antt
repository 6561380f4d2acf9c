-- ===== src/Auth/Login.antt =====
-- app/auth/application/use_cases/handle_oauth_callback.py and create_user.py
use ai_saga.Common.{
  ℕ, ◌*◌, Bool, true, false, ◌&&◌, eqb, if◌then◌else◌, Option, none, some, List, [], ◌∷◌, Text,
  text, Result, ok, raise, or_raise, attribute_error, bad_request, key_error, validation_error,
  value_error,
}
use ai_saga.Common.Int.{pos}
use ai_saga.Program.{◌>>=◌, ◌>>◌, pure, lift}
use ai_saga.Strings.{split_at}
use ai_saga.Json.{Json, Fields, null, bool, num, find, truthy, as_text, as_optional_text}
use ai_saga.Auth.Entities.{
  AuthProvider, normal, UserEntity, SocialAccountEntity, level_value, find_user_by_id,
  find_user_by_email, save_user, stored_user, find_account_by_provider, save_account, is_empty_text,
}
use ai_saga.Auth.Services.{AuthServices}
use ai_saga.Auth.Realm.{Act, now, new_id, users, accounts, set_users, set_accounts}
use ai_saga.Auth.Cache.{set_jwt_session, set_google_access_token, set_google_refresh_token}
use ai_saga.Auth.Tokens.{create_access_token, create_refresh_token}
use ai_saga.Auth.Google.{verify_state, exchange_code_for_tokens, get_user_info}

-- `d.get(key, default)` and `d[key]` on a dictionary.
unfoldable pub get_or : Fields → Text → Json → Json
unfolding find
get_or fs key default = elim (find key fs) [ none ↦ default | some v ↦ v ]

unfoldable pub item : Fields → Text → Result Json
unfolding find
item fs key = or_raise (find key fs) key_error

-- `user_info.get("id") or user_info.get("sub")`
unfoldable pub identity : Fields → Json
unfolding get_or truthy
identity info =
    if truthy (get_or info (text "id") null)
    then get_or info (text "id") null
    else get_or info (text "sub") null

unfoldable pub first_part : List Text → Text
first_part [] = []
first_part (t ∷ ts) = t

-- `name or email.split("@")[0]`
unfoldable pub display_name : Json → Option Text → Result Text
unfolding truthy as_text first_part split_at
display_name name email =
    if truthy name
    then as_text name
    else elim email [ none ↦ raise attribute_error | some e ↦ ok (first_part (split_at b'@' e)) ]

unfoldable pub new_user : ℕ → Text → Text → Option Text → Bool → ℕ → UserEntity
new_user id email name picture verified t = record {
  id = id;
  email = email;
  name = name;
  profile_image_url = picture;
  user_level = normal;
  is_active = true;
  email_verified = verified;
  created_at = t;
  last_login_at = some t;
  game_level = 1;
  game_experience = 0;
  game_current_experience = 0;
}

pub record OAuthCallbackInput : Type 0 where
  pub code : Text
  pub state : Text
  pub provider : AuthProvider

pub record OAuthCallbackResult : Type 0 where
  pub user : UserEntity
  pub access_token : Text
  pub refresh_token : Text
  pub expires_in : ℕ
  pub is_new_user : Bool

module _ (svc : AuthServices) where
  -- `UserRepositoryImpl.save`
  unfoldable pub save : UserEntity → Act svc UserEntity
  unfolding save_user stored_user
  save u = do
    rows ← users svc
    set_users svc (save_user u rows)
    pure (stored_user u (save_user u rows))

  -- The user of a known social account.
  unfoldable pub user_of_account : SocialAccountEntity → Act svc UserEntity
  unfolding find_user_by_id
  user_of_account a = do
    rows ← users svc
    lift (or_raise (find_user_by_id a.user_id rows) value_error)

  -- A user with the same email takes the picture if they have none.
  unfoldable pub complete_profile : UserEntity → Json → Act svc UserEntity
  unfolding is_empty_text truthy as_text save
  complete_profile user picture =
      if is_empty_text user.profile_image_url && truthy picture
      then (do
        url ← lift (as_text picture)
        save (record user { profile_image_url = some url })
        pure (record user { profile_image_url = some url }))
      else pure user

  unfoldable pub register : Option Text → Fields → ℕ → Act svc UserEntity
  unfolding display_name get_or as_optional_text new_user save
  register email info t = do
    id ← new_id svc
    name ← lift (display_name (get_or info (text "name") null) email)
    address ← lift (or_raise email validation_error)
    picture ← lift (as_optional_text (get_or info (text "picture") null))
    let flag = get_or info (text "verified_email") (bool false)
    verified ← lift (or_raise (svc.as_bool flag) validation_error)
    save (new_user id address name picture verified t)

  -- An insert that the constraint refuses is forgiven if the row in the way is of the same user.
  unfoldable pub write_account : SocialAccountEntity → Act svc (Unit {0})
  unfolding save_account find_account_by_provider
  write_account a = do
    rows ← accounts svc
    elim (save_account a rows) [
      | ok rows' ↦ set_accounts svc rows'
      | raise e ↦ elim (find_account_by_provider a.provider (some a.provider_user_id) rows) [
        | none ↦ lift (raise e)
        | some r ↦ if eqb r.user_id a.user_id then pure tt else lift (raise e)
      ]
    ]

  unfoldable pub link_account : ℕ → AuthProvider → Option Text → Fields → ℕ → Act svc (Unit {0})
  link_account user_id provider provider_user_id info t = do
    id ← new_id svc
    identifier ← lift (or_raise provider_user_id validation_error)
    write_account (record {
      id = id;
      user_id = user_id;
      provider = provider;
      provider_user_id = identifier;
      provider_data = info;
      connected_at = t;
      last_used_at = t;
    })

  -- The user of a sign-in with an unknown account: one with the same email, or a new one.
  unfoldable pub user_of_email :
      Option UserEntity → Option Text → Fields → ℕ → Act svc (UserEntity × Bool)
  user_of_email (some u) email info t = do
    user ← complete_profile u (get_or info (text "picture") null)
    pure (user, false)
  user_of_email none email info t = do user ← register email info t; pure (user, true)

  unfoldable pub join_user : AuthProvider → Option Text → Fields → ℕ → Act svc (UserEntity × Bool)
  join_user provider provider_user_id info t = do
    address ← lift (item info (text "email"))
    email ← lift (as_optional_text address)
    rows ← users svc
    who ← user_of_email (find_user_by_email email rows) email info t
    link_account (who.0.id) provider provider_user_id info t
    pure who

  -- Step 4, after the account was looked for.
  unfoldable pub user_of_sign_in :
      Option SocialAccountEntity
      → AuthProvider
      → Option Text
      → Fields
      → ℕ
      → Act svc (UserEntity × Bool)
  user_of_sign_in (some a) provider provider_user_id info t = do
    user ← user_of_account a
    pure (user, false)
  user_of_sign_in none provider provider_user_id info t = join_user provider provider_user_id info t

  -- Steps 4 and 5: who signs in, and whether they are new.
  unfoldable pub identify : AuthProvider → Fields → Act svc (UserEntity × Bool)
  identify provider info = do
    provider_user_id ← lift (as_optional_text (identity info))
    rows ← accounts svc
    t ← now svc
    found ←
        user_of_sign_in (find_account_by_provider provider provider_user_id rows) provider
          provider_user_id info t
    save (record (found.0) { last_login_at = some t })
    pure (record (found.0) { last_login_at = some t }, found.1)

  -- Step 5.5, where the only provider is Google.
  unfoldable pub keep_google_tokens : ℕ → Fields → Json → Json → Act svc (Unit {0})
  keep_google_tokens user_id tokens access_token refresh_token = do
    set_google_access_token svc user_id access_token
        (get_or tokens (text "expires_in") (num (pos 3600)))
    if truthy refresh_token then set_google_refresh_token svc user_id refresh_token else pure tt

  -- Steps 6 and 7.
  unfoldable pub open_session : UserEntity → Bool → Act svc OAuthCallbackResult
  open_session user is_new_user = do
    access ← create_access_token svc user.id user.email (level_value user.user_level) none
    refresh ← create_refresh_token svc user.id none
    set_jwt_session svc user.id
        (record { email = user.email; user_level = level_value user.user_level })
        (svc.jwt_session_expire_minutes * 60)
    pure (record {
      user = user;
      access_token = access.access_token;
      refresh_token = refresh.refresh_token;
      expires_in = access.expires_in;
      is_new_user = is_new_user;
    })

  -- All that follows the check of the state.
  unfoldable pub sign_in : OAuthCallbackInput → Act svc OAuthCallbackResult
  sign_in input = do
    tokens ← exchange_code_for_tokens svc input.code
    access_token ← lift (item tokens (text "access_token"))
    info ← get_user_info svc access_token
    who ← identify input.provider info
    keep_google_tokens (who.0.id) tokens access_token (get_or tokens (text "refresh_token") null)
    open_session (who.0) (who.1)

  -- `HandleOAuthCallbackUseCase.execute`
  unfoldable pub handle_oauth_callback : OAuthCallbackInput → Act svc OAuthCallbackResult
  handle_oauth_callback input = do
    valid ← verify_state svc input.state
    lift (if valid then ok tt else raise bad_request)
    sign_in input

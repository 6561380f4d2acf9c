-- ===== src/Auth/Create.antt =====
-- app/auth/application/use_cases/create_user.py, on input that pydantic has checked.
use ai_saga.Common.{
  ℕ, Bool, true, false, not, ◌&&◌, if◌then◌else◌, Option, none, some, [], ◌∷◌, Text,
}
use ai_saga.Program.{◌>>=◌, ◌>>◌, pure, lift}
use ai_saga.Strings.{split_at}
use ai_saga.Json.{Fields}
use ai_saga.Auth.Entities.{
  AuthProvider, UserEntity, SocialAccountEntity, find_user_by_email, find_account_by_provider,
  save_account, is_empty_text,
}
use ai_saga.Auth.Services.{AuthServices}
use ai_saga.Auth.Realm.{Act, now, new_id, users, accounts, set_accounts}
use ai_saga.Auth.Login.{first_part, new_user, save, user_of_account}

pub record CreateUserInput : Type 0 where
  pub provider : AuthProvider
  pub provider_user_id : Text
  pub email : Text
  pub name : Text
  pub profile_image_url : Option Text
  pub provider_data : Fields
  pub email_verified : Bool

pub record CreateUserResult : Type 0 where
  pub user : UserEntity
  pub is_new_user : Bool

-- `input_data.name or input_data.email.split("@")[0]`
unfoldable pub given_name : Text → Text → Text
unfolding first_part split_at
given_name [] email = first_part (split_at b'@' email)
given_name (c ∷ cs) email = c ∷ cs

module _ (svc : AuthServices) where
  -- A user with the same email takes the picture if they have none.
  unfoldable pub take_picture : UserEntity → Option Text → Act svc UserEntity
  unfolding is_empty_text
  take_picture user picture =
      if is_empty_text user.profile_image_url && not (is_empty_text picture)
      then (do
        save svc (record user { profile_image_url = picture })
        pure (record user { profile_image_url = picture }))
      else pure user

  -- `SocialAccountRepositoryImpl.save`
  unfoldable pub add_account : SocialAccountEntity → Act svc (Unit {0})
  unfolding save_account
  add_account a = do rows ← accounts svc; rows' ← lift (save_account a rows); set_accounts svc rows'

  unfoldable pub found_or_new : Option UserEntity → CreateUserInput → ℕ → Act svc CreateUserResult
  unfolding given_name new_user
  found_or_new (some u) input t = do
    user ← take_picture u input.profile_image_url
    pure (record { user = user; is_new_user = false })
  found_or_new none input t = do
    id ← new_id svc
    user ← save svc (
        new_user id input.email (given_name input.name input.email) input.profile_image_url
          input.email_verified t)
    pure (record { user = user; is_new_user = true })

  unfoldable pub create_account : CreateUserInput → ℕ → Act svc CreateUserResult
  unfolding find_user_by_email
  create_account input t = do
    rows ← users svc
    result ← found_or_new (find_user_by_email (some input.email) rows) input t
    id ← new_id svc
    add_account (record {
      id = id;
      user_id = result.user.id;
      provider = input.provider;
      provider_user_id = input.provider_user_id;
      provider_data = input.provider_data;
      connected_at = t;
      last_used_at = t;
    })
    pure result

  -- `CreateUserUseCase.execute`
  unfoldable pub create_user : CreateUserInput → Act svc CreateUserResult
  unfolding find_account_by_provider
  create_user input = do
    rows ← accounts svc
    t ← now svc
    elim (find_account_by_provider input.provider (some input.provider_user_id) rows) [
      | some a ↦ do user ← user_of_account svc a; pure (record { user = user; is_new_user = false })
      | none ↦ create_account input t
    ]

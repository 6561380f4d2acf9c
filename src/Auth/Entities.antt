-- ===== src/Auth/Entities.antt =====
-- The entities of app/auth/domain with the repositories' reads and writes as functions on the
-- tables. The column `updated_at` is left out: the database renews it by itself.
use ai_saga.Common.{
  ℕ, Bool, true, false, ◌&&◌, ◌||◌, Option, none, some, List, [], ◌∷◌, eqb, if◌then◌else◌, Text,
  text, text_eqb, Result, ok, raise, service_error,
}
use ai_saga.Json.{Fields}

pub data AuthProvider : Type 0 where
  google : AuthProvider

-- The value of an `AuthProvider`.
unfoldable pub provider_value : AuthProvider → Text
provider_value google = text "google"

pub data UserLevel : Type 0 where
  normal admin : UserLevel

-- The value of a `UserLevel`.
unfoldable pub level_value : UserLevel → ℕ
level_value normal = 100
level_value admin = 1000

pub record UserEntity : Type 0 where
  pub id : ℕ
  pub email : Text
  pub name : Text
  pub profile_image_url : Option Text
  pub user_level : UserLevel
  pub is_active : Bool
  pub email_verified : Bool
  pub created_at : ℕ
  pub last_login_at : Option ℕ
  pub game_level : ℕ
  pub game_experience : ℕ
  pub game_current_experience : ℕ

pub record SocialAccountEntity : Type 0 where
  pub id : ℕ
  pub user_id : ℕ
  pub provider : AuthProvider
  pub provider_user_id : Text
  pub provider_data : Fields
  pub connected_at : ℕ
  pub last_used_at : ℕ

-- `UserRepositoryImpl.get_by_id`
unfoldable pub find_user_by_id : ℕ → List UserEntity → Option UserEntity
find_user_by_id i [] = none
find_user_by_id i (u ∷ us) = if eqb u.id i then some u else find_user_by_id i us

-- `UserRepositoryImpl.get_by_email`; no row has the email `None`.
unfoldable pub find_user_by_email : Option Text → List UserEntity → Option UserEntity
find_user_by_email none us = none
find_user_by_email (some e) [] = none
find_user_by_email (some e) (u ∷ us) =
    if text_eqb u.email e then some u else find_user_by_email (some e) us

-- The columns that `UserMapper.to_dict` writes, over an existing row.
unfoldable pub overwrite_user : UserEntity → UserEntity → UserEntity
overwrite_user old new = record new { id = old.id; email = old.email; created_at = old.created_at }

-- A new row: the columns of the game take the table's defaults.
unfoldable pub insert_user : UserEntity → UserEntity
insert_user u = record u { game_level = 1; game_experience = 0; game_current_experience = 0 }

-- The rows after `UserRepositoryImpl.save`.
unfoldable pub save_user : UserEntity → List UserEntity → List UserEntity
unfolding insert_user overwrite_user
save_user u [] = insert_user u ∷ []
save_user u (r ∷ rs) = if eqb r.id u.id then overwrite_user r u ∷ rs else r ∷ save_user u rs

-- What `UserRepositoryImpl.save` returns: the entity of the row that it wrote.
unfoldable pub stored_user : UserEntity → List UserEntity → UserEntity
unfolding find_user_by_id
stored_user u rows = elim (find_user_by_id u.id rows) [ none ↦ u | some r ↦ r ]

unfoldable pub provider_eqb : AuthProvider → AuthProvider → Bool
unfolding provider_value
provider_eqb p q = text_eqb (provider_value p) (provider_value q)

-- The test of `SocialAccountRepositoryImpl.get_by_provider` on a row.
unfoldable pub is_identity : AuthProvider → Text → SocialAccountEntity → Bool
unfolding provider_eqb
is_identity p i a = provider_eqb a.provider p && text_eqb a.provider_user_id i

-- `SocialAccountRepositoryImpl.get_by_provider`; no row has the identifier `None`.
unfoldable pub find_account_by_provider :
    AuthProvider → Option Text → List SocialAccountEntity → Option SocialAccountEntity
unfolding is_identity
find_account_by_provider p none rows = none
find_account_by_provider p (some i) [] = none
find_account_by_provider p (some i) (a ∷ rows) =
    if is_identity p i a then some a else find_account_by_provider p (some i) rows

unfoldable pub find_account_by_id : ℕ → List SocialAccountEntity → Option SocialAccountEntity
find_account_by_id i [] = none
find_account_by_id i (a ∷ rows) = if eqb a.id i then some a else find_account_by_id i rows

unfoldable pub accounts_of_user : ℕ → List SocialAccountEntity → List SocialAccountEntity
accounts_of_user u [] = []
accounts_of_user u (a ∷ rows) =
    let rest = accounts_of_user u rows in if eqb a.user_id u then a ∷ rest else rest

-- The columns that an update writes, over an existing row.
unfoldable pub overwrite_account : SocialAccountEntity → SocialAccountEntity → SocialAccountEntity
overwrite_account old new = record old {
  provider_data = new.provider_data;
  last_used_at = new.last_used_at;
}

unfoldable pub put_account :
    SocialAccountEntity → List SocialAccountEntity → List SocialAccountEntity
unfolding overwrite_account
put_account a [] = a ∷ []
put_account a (r ∷ rs) = if eqb r.id a.id then overwrite_account r a ∷ rs else r ∷ put_account a rs

-- Whether an insert meets the constraint `uq_social_accounts_provider_user`.
unfoldable pub is_taken : SocialAccountEntity → List SocialAccountEntity → Bool
unfolding is_identity
is_taken a [] = false
is_taken a (r ∷ rs) = is_identity a.provider a.provider_user_id r || is_taken a rs

-- `SocialAccountRepositoryImpl.save`: an update of the row with the identifier, or an insert.
unfoldable pub save_account :
    SocialAccountEntity → List SocialAccountEntity → Result (List SocialAccountEntity)
unfolding find_account_by_id put_account is_taken
save_account a rows = elim (find_account_by_id a.id rows) [
  | some r ↦ ok (put_account a rows)
  | none ↦ if is_taken a rows then raise service_error else ok (put_account a rows)
]

-- `DELETE … WHERE id = …`
unfoldable pub drop_account : ℕ → List SocialAccountEntity → List SocialAccountEntity
drop_account i [] = []
drop_account i (a ∷ rows) = let rest = drop_account i rows in if eqb a.id i then rest else a ∷ rest

-- `not text`, for a text that may be `None`.
unfoldable pub is_empty_text : Option Text → Bool
is_empty_text none = true
is_empty_text (some []) = true
is_empty_text (some (c ∷ cs)) = false

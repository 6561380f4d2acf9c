-- ===== src/Examples/SignIns.antt =====
-- Sign-ins, renewals and a sign-out in a small realm.
use ai_saga.Common.{
  ℕ, zero, suc, ◌≡◌, ◌≢◌, refl, ap, subst, Bool, inl, true, false, Option, none, some, [], ◌∷◌,
  length, Text, text, ok, raise, unauthorized, bad_request, arith,
}
use ai_saga.Common.Int.{ℤ}
use ai_saga.Json.{Json, Fields, num, str, bool, field, end}
use ai_saga.Auth.Entities.{google, normal, UserEntity, SocialAccountEntity, find_account_by_id}
use ai_saga.Auth.Services.{
  AuthServices, Claims, SessionData, session, oauth_state, GoogleRequest, GoogleReply,
  exchange_code, user_info, refresh, revoke, answer, request_error,
}
use ai_saga.Auth.Realm.{State}
use ai_saga.Auth.Login.{OAuthCallbackInput, handle_oauth_callback}
use ai_saga.Auth.Cache.{
  get_key, blacklist_key, is_jwt_token_blacklisted, blacklist_jwt_token, set_jwt_session,
  delete_jwt_session,
}
use ai_saga.Auth.Tokens.{
  token_id, verify_token, create_access_token, create_refresh_token, blacklist_token,
}
use ai_saga.Auth.Requests.{
  RefreshTokenResult, refreshable, claimed_session, renew, refresh_token, logout, get_current_user,
}
use ai_saga.Auth.Revocation
use ai_saga.Auth.SingleUse
use ai_saga.Auth.SignOut
use ai_saga.Auth.States
use ai_saga.Auth.Gate
use ai_saga.Auth.Accounts
use ai_saga.Auth.Renewal
use ai_saga.Examples.Redis.{redis}
use ai_saga.Examples.Signed.{
  sign, decode, decode-sign, decode-sign_eq, decode-agree, decode-later, decode-exp,
}

abbrev marks : ℕ → Text
marks zero = []
marks (suc n) = b'i' ∷ marks n

abbrev parse_marks : Text → Option ℕ
parse_marks [] = none
parse_marks (c ∷ t) = some (length t)

length-marks : (n : ℕ) → length (marks n) ≡ n
length-marks zero = refl
length-marks (suc n) = ap suc (length-marks n)

marks_id : (n : ℕ) → parse_marks (marks (suc n)) ≡ some n
marks_id n = ap some (length-marks n)

marks-ne-nil : (n : ℕ) → marks (suc n) ≢ []
marks-ne-nil n h = ground arith

-- Google hands out a token, and knows one person.
abbrev person : Fields
person =
    field (text "email") (str (text "a@b"))
      (field (text "id") (str (text "g")) (field (text "name") (str (text "Ann")) end))

abbrev replies : GoogleRequest → GoogleReply
replies (exchange_code c) = answer 200 (some (field (text "access_token") (str (text "x")) end))
replies (user_info t) = answer 200 (some person)
replies (refresh t) = request_error
replies (revoke t) = request_error

abbrev as_int : Json → Option ℤ
as_int (num z) = some z
as_int _ = none

abbrev as_flag : Json → Option Bool
as_flag (bool b) = some b
as_flag _ = none

abbrev services : AuthServices
services = record {
  redis = redis;
  time = λ n. n;
  time-mono = λ m n h. h;
  uuid7 = λ n. n;
  uuid_text = λ n. marks (suc n);
  uuid_hex = λ n. marks (suc n);
  parse_uuid = parse_marks;
  parse_uuid-uuid_text = marks_id;
  uuid_text-ne-nil = marks-ne-nil;
  sign = sign;
  decode = decode;
  decode-sign = decode-sign;
  decode-sign_eq = decode-sign_eq;
  decode-agree = decode-agree;
  decode-later = decode-later;
  decode-exp = decode-exp;
  send = λ _ r. replies r;
  token_urlsafe = λ _. text "s";
  as_bool = as_flag;
  to_int = as_int;
  jwt_access_token_expire_minutes = 30;
  jwt_refresh_token_expire_minutes = 1440;
  jwt_session_expire_minutes = 1440;
}

abbrev ann : UserEntity
ann = record {
  id = 1;
  email = text "a@b";
  name = text "Ann";
  profile_image_url = none;
  user_level = normal;
  is_active = true;
  email_verified = false;
  created_at = 0;
  last_login_at = none;
  game_level = 1;
  game_experience = 0;
  game_current_experience = 0;
}

abbrev account : ℕ → Text → SocialAccountEntity
account i name = record {
  id = i;
  user_id = 1;
  provider = google;
  provider_user_id = name;
  provider_data = end;
  connected_at = 0;
  last_used_at = 0;
}

abbrev ann_session : SessionData
ann_session = record { email = text "a@b"; user_level = 100 }

-- Ann is signed in, and a sign-in with the state `s` is under way.
abbrev realm : State services
realm = record {
  users = ann ∷ [];
  accounts = account 2 (text "g") ∷ account 3 (text "h") ∷ [];
  cache =
      (text "auth:auth:session:ii", session ann_session, 90000000000)
      ∷ (
        text "auth:oauth_state:s",
        oauth_state (record { created_at = 0; provider = text "google" }),
        90000000000,
      )
      ∷ [];
  clock = 7;
  ids = 9;
  calls = 0;
}

-- Ann's refresh token.
abbrev claims : Claims
claims = record {
  sub = some (marks 2);
  email = none;
  user_level = none;
  exp = some 86400;
  iat = some 0;
  jti = some (text "j");
  kind = some (text "refresh");
}

abbrev held : Text
held = sign claims

held-Issued : Revocation.Issued services held claims (text "j") 86400 7
unfolding token_id
held-Issued = record { decoded = refl; identified = refl; expires = refl }

renewal :
    (r : RefreshTokenResult) × (w' : State services) × (refresh_token services held realm
      ≡ (ok r, w'))
unfolding refresh_token refreshable verify_token is_jwt_token_blacklisted claimed_session renew
    create_access_token create_refresh_token blacklist_token blacklist_jwt_token set_jwt_session
renewal = (_, _, refl)

renewal_clock : renewal.1.clock ≡ 18
unfolding renewal refresh_token refreshable verify_token is_jwt_token_blacklisted claimed_session
    renew create_access_token create_refresh_token blacklist_token blacklist_jwt_token
    set_jwt_session
renewal_clock = refl

refresh_token_once_example : (refresh_token services held renewal.1).0 ≡ raise unauthorized
refresh_token_once_example =
    SingleUse.refresh_token_once services held claims (text "j") 86400 realm renewal.1 renewal.1
      renewal.0 held-Issued renewal.2 refl (omega arith) (inl (omega (arith, renewal_clock)))

unlisted : (t : ℕ) → redis.read t (get_key (blacklist_key services (marks 11))) realm.cache ≡ none
unfolding get_key blacklist_key
unlisted t = refl

other_id : (n : ℕ) (o : Claims) → decode n held ≡ some o → token_id o ≢ some (marks 11)
unfolding token_id
other_id n o h same =
    let same_id : some (text "j") ≡ some (marks 11) =
      subst (λ c. token_id c ≡ some (marks 11)) (decode-sign_eq n claims o h) same in
    ground arith

refresh_token_serves_example :
    (again : RefreshTokenResult) × (v' : State services) × (refresh_token services
        (renewal.0).refresh_token
        renewal.1
      ≡ (ok again, v'))
refresh_token_serves_example =
    Renewal.refresh_token_serves services held realm renewal.1 renewal.1 renewal.0 renewal.2 refl
      (omega arith) (omega (arith, renewal_clock)) unlisted other_id

signed_out : State services
signed_out = (logout services 1 held realm).1

signed_out_clock : signed_out.clock ≡ 10
unfolding signed_out logout blacklist_token blacklist_jwt_token delete_jwt_session
signed_out_clock = refl

signed_out_read : decode signed_out.clock held ≡ some claims
unfolding signed_out logout blacklist_token blacklist_jwt_token delete_jwt_session
signed_out_read = refl

logout_lem_example :
    ((logout services 1 held realm).0 ≡ ok tt)
    × ((get_current_user services held signed_out).0 ≡ raise unauthorized)
    × ((refresh_token services held signed_out).0 ≡ raise unauthorized)
unfolding signed_out
logout_lem_example =
    SignOut.logout_lem services 1 held held claims claims (text "j") 86400 realm signed_out
      held-Issued refl (omega arith) (inl (omega (arith, signed_out_clock))) signed_out_read refl

callback : OAuthCallbackInput
callback = record { code = text "c"; state = text "s"; provider = google }

called_back : State services
called_back = (handle_oauth_callback services callback realm).1

handle_oauth_callback_once_example :
    ((handle_oauth_callback services callback called_back).0 ≡ raise bad_request)
    × ((handle_oauth_callback services callback called_back).1.users ≡ called_back.users)
    × ((handle_oauth_callback services callback called_back).1.accounts ≡ called_back.accounts)
    × ((handle_oauth_callback services callback called_back).1.calls ≡ called_back.calls)
unfolding called_back
handle_oauth_callback_once_example =
    States.handle_oauth_callback_once services callback callback realm called_back refl refl

get_current_user-IsGated_example : Gate.IsGated services held realm
get_current_user-IsGated_example = Gate.get_current_user-IsGated services held realm

distinct : Accounts.HasDistinctIds realm.accounts
unfolding find_account_by_id
distinct = (refl, (refl, tt))

disconnect_social_account-Disconnection_example : Accounts.Disconnection services 1 2 realm
disconnect_social_account-Disconnection_example =
    Accounts.disconnect_social_account-Disconnection services 1 2 realm distinct

-- ===== src/Auth/Frames.antt =====
-- The parts of a sign-in that leave the cache alone.
use ai_saga.Common.{ℕ, zero, suc, ◌+◌, ◌≡◌, refl, Option, none, some, Text, arith}
use ai_saga.Json.{Json, Fields}
use ai_saga.Auth.Entities.{AuthProvider, UserEntity, SocialAccountEntity}
use ai_saga.Auth.Services.{AuthServices, GoogleRequest}
use ai_saga.Auth.Realm.{State}
use ai_saga.Auth.Google.{attempts, request_with_retry, exchange_code_for_tokens, get_user_info}
use ai_saga.Auth.Login.{
  save, user_of_account, complete_profile, register, write_account, link_account, join_user,
  identify, user_of_email, user_of_sign_in,
}

module _ (svc : AuthServices) where
  attempts-cache :
      (n : ℕ) (r : GoogleRequest) (w : State svc) → (attempts svc n r w).1.cache ≡ w.cache
  unfolding attempts
  attempts-cache zero r w = refl
  attempts-cache (suc n) r w = ground (arith, attempts-cache n r (record w { calls = w.calls + 1 }))

  pub exchange_code_for_tokens-cache :
      (code : Text) (w : State svc) → (exchange_code_for_tokens svc code w).1.cache ≡ w.cache
  unfolding exchange_code_for_tokens request_with_retry
  exchange_code_for_tokens-cache code w = grind (arith, attempts-cache)

  pub get_user_info-cache : (t : Json) (w : State svc) → (get_user_info svc t w).1.cache ≡ w.cache
  unfolding get_user_info request_with_retry
  get_user_info-cache t w = grind (arith, attempts-cache)

  save-cache : (u : UserEntity) (w : State svc) → (save svc u w).1.cache ≡ w.cache
  unfolding save
  save-cache u w = refl

  user_of_account-cache :
      (a : SocialAccountEntity) (w : State svc) → (user_of_account svc a w).1.cache ≡ w.cache
  unfolding user_of_account
  user_of_account-cache a w = refl

  complete_profile-cache :
      (u : UserEntity) (p : Json) (w : State svc) → (complete_profile svc u p w).1.cache ≡ w.cache
  unfolding complete_profile
  complete_profile-cache u p w = ground arith

  register-cache :
      (email : Option Text) (info : Fields) (t : ℕ) (w : State svc)
      → (register svc email info t w).1.cache ≡ w.cache
  unfolding register save
  register-cache email info t w = ground arith

  write_account-cache :
      (a : SocialAccountEntity) (w : State svc) → (write_account svc a w).1.cache ≡ w.cache
  unfolding write_account
  write_account-cache a w = ground arith

  link_account-cache :
      (u : ℕ) (p : AuthProvider) (i : Option Text) (info : Fields) (t : ℕ) (w : State svc)
      → (link_account svc u p i info t w).1.cache ≡ w.cache
  unfolding link_account
  link_account-cache u p i info t w = grind (arith, write_account-cache)

  user_of_email-cache :
      (found : Option UserEntity) (email : Option Text) (info : Fields) (t : ℕ) (w : State svc)
      → (user_of_email svc found email info t w).1.cache ≡ w.cache
  unfolding user_of_email
  user_of_email-cache none email info t w = grind (arith, register-cache)
  user_of_email-cache (some u) email info t w = grind (arith, complete_profile-cache)

  join_user-cache :
      (p : AuthProvider) (i : Option Text) (info : Fields) (t : ℕ) (w : State svc)
      → (join_user svc p i info t w).1.cache ≡ w.cache
  unfolding join_user
  join_user-cache p i info t w = grind (arith, user_of_email-cache, link_account-cache)

  user_of_sign_in-cache :
      (found : Option SocialAccountEntity) (p : AuthProvider) (i : Option Text) (info : Fields)
      (t : ℕ) (w : State svc)
      → (user_of_sign_in svc found p i info t w).1.cache ≡ w.cache
  unfolding user_of_sign_in
  user_of_sign_in-cache none p i info t w = join_user-cache p i info t w
  user_of_sign_in-cache (some a) p i info t w = grind (arith, user_of_account-cache)

  pub identify-cache :
      (p : AuthProvider) (info : Fields) (w : State svc) → (identify svc p info w).1.cache ≡ w.cache
  unfolding identify
  identify-cache p info w = grind (arith, user_of_sign_in-cache, save-cache)

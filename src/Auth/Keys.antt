-- ===== src/Auth/Keys.antt =====
-- The keys under which the cache keeps sessions, revoked identifiers, states and Google's tokens are
-- apart.
use ai_saga.Common.{ℕ, ◌≢◌, Text, arith}
use ai_saga.Auth.Services.{AuthServices}
use ai_saga.Auth.Cache.{get_key, session_key, blacklist_key, state_key, access_key, refresh_key}

module _ (svc : AuthServices) (u : ℕ) (t : Text) where
  pub blacklist-ne-session : get_key (blacklist_key svc t) ≢ get_key (session_key svc u)
  unfolding get_key blacklist_key session_key
  blacklist-ne-session h = ground arith

  pub state-ne-session : get_key (state_key svc t) ≢ get_key (session_key svc u)
  unfolding get_key state_key session_key
  state-ne-session h = ground arith

  pub state-ne-access : get_key (state_key svc t) ≢ get_key (access_key svc u)
  unfolding get_key state_key access_key
  state-ne-access h = ground arith

  pub state-ne-refresh : get_key (state_key svc t) ≢ get_key (refresh_key svc u)
  unfolding get_key state_key refresh_key
  state-ne-refresh h = ground arith

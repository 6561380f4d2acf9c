-- ===== src/Routes.antt =====
-- What a route answers: the exceptions of app/common/exception.py with their statuses, the handlers
-- of app/common/middleware/exception_handler.py, and the lock of
-- app/game/infrastructure/adapters/cache_service.py.
pub mod Game
pub mod Refusals
pub mod Replays
pub mod Running
use ai_saga.Common.{
  ℕ, Option, none, some, Text, text, Result, Error, ok, raise, session_not_found, session_not_owned,
  session_completed, session_not_active, max_turns_reached, cannot_advance, cannot_pause,
  cannot_resume, scenario_not_found, scenario_inactive, character_not_found, character_not_owned,
  character_elsewhere, already_active, item_not_in_inventory, attribute_error, type_error,
  validation_error, value_error, key_error, unauthorized, forbidden, not_found, bad_request,
  conflict, server_error, service_error,
}
use ai_saga.Program.{Program}

-- An answer with its status, or a refusal with its status and message.
pub data Reply (A : Type 0) : Type 0 where
  reply : ℕ → A → Reply A
  refusal : ℕ → Text → Reply A

abbrev pub Refusal : Type 0
Refusal = ℕ × Text

abbrev pub internal_error : Refusal
internal_error = (500, text "Internal server error")

-- The lock of a request: none if it is not had in time, and otherwise what other requests do until
-- it is.
abbrev pub Lock : Type 0 → Type 0
Lock W = Option (W → W)

-- `async with cache_service.lock(...)`
unfoldable pub locked : {W A : Type 0} → Lock W → Program W A → Program W A
locked none m w = (raise conflict, w)
locked (some meanwhile) m w = m (meanwhile w)

-- `said` is the message of an exception whose text is not one constant.
module _ (said : Error → Text) where
  -- `str(e)` of a `ValueError`, and nothing for any other exception.
  unfoldable pub value_error_text : Error → Option Text
  value_error_text session_not_found = some (text "Session not found")
  value_error_text session_not_owned = some (text "Session does not belong to user")
  value_error_text session_completed =
      some (text "Session is already completed. Cannot process further actions.")
  value_error_text session_not_active = some (text "Session is not in active state")
  value_error_text max_turns_reached = some (said max_turns_reached)
  value_error_text cannot_advance = some (text "Cannot advance turn on inactive session")
  value_error_text cannot_pause = some (text "Cannot pause inactive session")
  value_error_text cannot_resume = some (text "Can only resume paused session")
  value_error_text scenario_not_found = some (text "Scenario not found")
  value_error_text scenario_inactive = some (text "Scenario not found or inactive")
  value_error_text character_not_found = some (said character_not_found)
  value_error_text character_not_owned =
      some (text "Character not found or does not belong to user")
  value_error_text character_elsewhere = some (text "Character does not belong to this scenario")
  value_error_text already_active = some (text "Character already has an active session")
  value_error_text item_not_in_inventory = some (said item_not_in_inventory)
  value_error_text validation_error = some (said validation_error)
  value_error_text value_error = some (said value_error)
  value_error_text attribute_error = none
  value_error_text type_error = none
  value_error_text key_error = none
  value_error_text unauthorized = none
  value_error_text forbidden = none
  value_error_text not_found = none
  value_error_text bad_request = none
  value_error_text conflict = none
  value_error_text server_error = none
  value_error_text service_error = none

  -- What the handlers of exceptions answer.
  unfoldable pub api_refusal : Error → Refusal
  api_refusal unauthorized = (401, said unauthorized)
  api_refusal forbidden = (403, said forbidden)
  api_refusal not_found = (404, said not_found)
  api_refusal bad_request = (400, said bad_request)
  api_refusal conflict = (409, said conflict)
  api_refusal server_error = (500, said server_error)
  api_refusal _ = internal_error

  -- `except ValueError as e` with what it makes of the text of `e`.
  unfoldable pub refuse_with : (Text → Refusal) → Error → Refusal
  unfolding value_error_text api_refusal
  refuse_with on_text e = elim (value_error_text e) [ some t ↦ on_text t | none ↦ api_refusal e ]

-- A request as a whole, answered with the status or refused.
unfoldable pub respond : {W A : Type 0} → (Error → Refusal) → ℕ → Program W A → W → Reply A × W
respond refuse status m w =
    let (r, w') = m w in
    elim r [ ok a ↦ (reply status a, w') | raise e ↦ (refusal (refuse e).0 (refuse e).1, w') ]

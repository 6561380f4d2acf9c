-- ===== src/Illustration/Requests.antt =====
-- A picture for a message on request: app/game/application/use_cases/generate_illustration.py.
pub mod Again
pub mod Cleanup
pub mod Drawn
pub mod Pictured
pub mod Refused
use ai_saga.Common.{
  ℕ, Bool, true, false, not, Option, none, some, List, [], ◌∷◌, ◌++◌, if◌then◌else◌, eqb, Text,
  text, lookup, insert, text_eqb, Result, ok, raise, raise_if, or_raise, not_found, service_error,
  forbidden, bad_request, server_error,
}
use ai_saga.Common
use ai_saga.Entities.{GameMessage, Scenario, is_ai_response}
use ai_saga.Session.{GameSession}
use ai_saga.Character.{CharacterEntity}
use ai_saga.Store.Tables.{find_session, find_character, find_scenario}
use ai_saga.History.{find_message}
use ai_saga.Turn.Prompt.{prompt_profile}
use ai_saga.Program.{◌>>=◌, ◌>>◌, pure, lift, attempt, on_raise}
use ai_saga.Illustration.Prompt.{build_scene_narrative, build_context, illustration_prompt}
use ai_saga.Illustration.Images.{ImageServices, Studio, Act, call, generate_image, delete_image}

pub record GenerateIllustrationInput : Type 0 where
  pub session_id : ℕ
  pub message_id : ℕ

pub record GenerateIllustrationResult : Type 0 where
  pub message_id : ℕ
  pub image_url : Text

-- `GameMessageRepositoryImpl.update_image_url`
unfoldable pub set_image : ℕ → Text → List GameMessage → List GameMessage
set_image i url [] = []
set_image i url (m ∷ ms) =
    if eqb m.id i then record m { image_url = some url } ∷ ms else m ∷ set_image i url ms

-- The text, if there is one that is not empty.
unfoldable pub truthy_text : Option Text → Option Text
truthy_text none = none
truthy_text (some []) = none
truthy_text (some (c ∷ cs)) = some (c ∷ cs)

unfoldable pub drop_result : Text → List (Text × Text) → List (Text × Text)
drop_result key [] = []
drop_result key ((k, url) ∷ rest) =
    let others = drop_result key rest in if text_eqb k key then others else (k, url) ∷ others

-- The checks on the session and on the message.
unfoldable pub owned_session : ℕ → Option GameSession → Result GameSession
owned_session user_id none = raise not_found
owned_session user_id (some s) = if not (eqb s.user_id user_id) then raise forbidden else ok s

unfoldable pub narrated_message : ℕ → Option GameMessage → Result GameMessage
unfolding is_ai_response
narrated_message session_id none = raise not_found
narrated_message session_id (some m) =
    if not (eqb m.session_id session_id)
    then raise bad_request
    else if not (is_ai_response m)
    then raise bad_request
    else ok m

module _ (svc : ImageServices) where
  abbrev pub gets : {A : Type 0} → (Studio → A) → Act A
  gets f w = (ok (f w), w)

  unfoldable pub result_key : ℕ → Text
  result_key i = text "game:illustration:result:" ++ svc.uuid_text i

  unfoldable pub cached_result : Text → Act (Option Text)
  unfolding truthy_text
  cached_result key = call svc λ w. (ok (truthy_text (lookup key w.results)), w)

  unfoldable pub keep_result : Text → Text → Act (Unit {0})
  keep_result key url = call svc λ w. (ok tt, record w { results = insert key url w.results })

  unfoldable pub forget_result : Text → Act (Unit {0})
  unfolding drop_result
  forget_result key = call svc λ w. (ok tt, record w { results = drop_result key w.results })

  -- A row that is not there raises.
  unfoldable pub update_image_url : ℕ → Text → Act (Unit {0})
  unfolding set_image find_message
  update_image_url i url = call svc λ w. elim (find_message i w.db.messages) [
    | none ↦ (raise service_error, w)
    | some m ↦ (ok tt, record w { db = record w.db { messages = set_image i url w.db.messages } })
  ]

  -- `_cleanup_generated_image`
  unfoldable pub cleanup_generated_image : Text → Text → Act (Unit {0})
  unfolding delete_image forget_result
  cleanup_generated_image url key = do
    attempt (delete_image svc url) tt
    attempt (forget_result key) tt

  -- The prompt of the message's scene.
  unfoldable pub scene_prompt : GameSession → GameMessage → CharacterEntity → Scenario → Result Text
  unfolding build_scene_narrative build_context illustration_prompt prompt_profile
  scene_prompt session message character scenario =
      Common.◌>>=◌ (build_scene_narrative svc.python message.content message.parsed_response)
        λ narrative. illustration_prompt svc.python (
          build_context svc.python narrative message.parsed_response character.name
            (prompt_profile svc.python character) session.current_location scenario)

  -- The URL goes into the cache, if it can, and into the row, or the image is cleaned up.
  unfoldable pub record_image : GameMessage → Text → Act GenerateIllustrationResult
  unfolding keep_result update_image_url cleanup_generated_image result_key
  record_image message url = do
    attempt (keep_result (result_key message.id) url) tt
    on_raise (update_image_url message.id url) (cleanup_generated_image url (result_key message.id))
    pure (record { message_id = message.id; image_url = url })

  -- A new image, where none is known.
  unfoldable pub make_image : GameSession → GameMessage → Act Text
  make_image session message = do
    character_row ← gets (λ w. find_character session.character_id w.db.characters)
    character ← lift (or_raise character_row not_found)
    scenario_row ← gets (λ w. find_scenario session.scenario_id w.db.scenarios)
    scenario ← lift (or_raise scenario_row not_found)
    prompt ← lift (scene_prompt session message character scenario)
    made ← generate_image svc prompt (svc.uuid_text session.id) (svc.uuid_text session.user_id)
    lift (or_raise made server_error)

  unfoldable pub draw_image : GameSession → GameMessage → Act GenerateIllustrationResult
  draw_image session message = do url ← make_image session message; record_image message url

  -- An image that the cache knows.
  unfoldable pub reuse_image : GameMessage → Text → Act GenerateIllustrationResult
  unfolding update_image_url
  reuse_image message url = do
    update_image_url message.id url
    pure (record { message_id = message.id; image_url = url })

  unfoldable pub reuse_or_draw :
      GameSession → GameMessage → Option Text → Act GenerateIllustrationResult
  reuse_or_draw session message (some url) = reuse_image message url
  reuse_or_draw session message none = draw_image session message

  unfoldable pub illustrate : GameSession → GameMessage → Act GenerateIllustrationResult
  illustrate session message = elim (truthy_text message.image_url) [
    | some url ↦ pure (record { message_id = message.id; image_url = url })
    | none ↦ cached_result (result_key message.id) >>= reuse_or_draw session message
  ]

  unfoldable pub generate_illustration :
      ℕ → GenerateIllustrationInput → Act GenerateIllustrationResult
  generate_illustration user_id input = do
    session_row ← gets (λ w. find_session input.session_id w.db.sessions)
    session ← lift (owned_session user_id session_row)
    message_row ← gets (λ w. find_message input.message_id w.db.messages)
    message ← lift (narrated_message session.id message_row)
    illustrate session message

-- ===== src/Examples/Pictures.antt =====
-- Pictures of a world small enough to compute with.
use ai_saga.Common.{
  ℕ, ◌≡◌, ◌≢◌, refl, true, none, some, [], ◌∷◌, ◌++◌, inr, text, Text, ok, raise, service_error,
  eqb,
}
use ai_saga.Values.{MessageRole}
use ai_saga.Strings.{strip, strip_left, strip_right}
use ai_saga.Json.{obj, str, get, find}
use ai_saga.Entities.{GameMessage, is_ai_response, is_ai}
use ai_saga.Illustration.{IllustrationPromptContext}
use ai_saga.Illustration.Images.{
  ImageServices, Studio, images, extract_object_key, object_url, generate_image,
  generate_google_imagen, answered_image, upload_image, upload, draw_id, put_object, rstrip_slashes,
  lstrip_slashes, s3_virtual_host,
}
use ai_saga.Illustration.Images.Urls.{IsKey, extract_object_key-object_url}
use ai_saga.Illustration.Requests.{
  GenerateIllustrationInput, GenerateIllustrationResult, generate_illustration, owned_session,
  narrated_message, illustrate, truthy_text, cached_result, reuse_or_draw, draw_image, make_image,
  scene_prompt, record_image, keep_result, update_image_url, set_image, result_key,
  cleanup_generated_image,
}
use ai_saga.Illustration.Requests.Pictured.{Pictured, generate_illustration-Pictured}
use ai_saga.Illustration.Requests.Again.{generate_illustration_again}
use ai_saga.Illustration.Requests.Refused.{generate_illustration-raise}
use ai_saga.Illustration.Requests.Cleanup.{CanStore, generate_illustration_cleaned}
use ai_saga.Illustration.Profile.{
  resolve_profile, joinable, build_anchor_lines, merge_negative_guidance,
}
use ai_saga.Store.Tables.{find_session, find_character, find_scenario}
use ai_saga.History.{find_message}
use ai_saga.Narrator.{extract_narrative_from_parsed}
use ai_saga.Illustration.Prompt.{illustration_prompt, build_context, build_scene_narrative}
use ai_saga.Examples.Setup.{python, db, session, answer_fields}

-- Images that are all made and stored, but for the call at which one fails.
abbrev studio_services : ℕ → ImageServices
studio_services bad = record {
  python = python;
  uuid7 = λ n. n;
  uuid_text = λ n. n ∷ [];
  fails = eqb bad;
  answer = λ _ _. images (text "png" ∷ []);
  urlparse = λ _. record { scheme = []; netloc = []; path = [] };
  image_generation_enabled = true;
  bucket = text "b";
  public_url = text "https://img/";
  endpoint_url = [];
  region = [];
}

abbrev always : ImageServices
always = studio_services 100

abbrev message : GameMessage
message = record {
  id = 9;
  session_id = 1;
  role = MessageRole.assistant;
  content = text "a guard";
  parsed_response = some (obj answer_fields);
  token_count = none;
  image_url = none;
  created_at = 0;
}

abbrev studio : Studio
studio = record {
  db = record db { messages = message ∷ [] };
  results = [];
  objects = [];
  calls = 0;
  ids = 50;
}

abbrev request : GenerateIllustrationInput
request = record { session_id = 1; message_id = 9 }

abbrev picture_key : Text
picture_key = (7 ∷ text "/") ++ (1 ∷ text "/") ++ (50 ∷ text ".png")

abbrev picture_url : Text
picture_url = text "https://img/" ++ picture_key

abbrev picture : GenerateIllustrationResult
picture = record { message_id = 9; image_url = picture_url }

abbrev after_picture : Studio
after_picture = (generate_illustration always 7 request studio).1

drawn : generate_illustration always 7 request studio ≡ (ok picture, after_picture)
unfolding generate_illustration owned_session find_session narrated_message find_message
    is_ai_response is_ai illustrate truthy_text cached_result reuse_or_draw draw_image make_image
    find_character find_scenario scene_prompt build_scene_narrative build_context
    illustration_prompt resolve_profile generate_image generate_google_imagen answered_image
    upload_image upload draw_id put_object object_url rstrip_slashes record_image keep_result
    update_image_url set_image extract_narrative_from_parsed result_key joinable build_anchor_lines
    merge_negative_guidance get find
drawn = refl

generate_illustration-Pictured_example : Pictured always 7 request picture studio after_picture
generate_illustration-Pictured_example =
    generate_illustration-Pictured always 7 request picture studio after_picture drawn

generate_illustration_again_example :
    generate_illustration always 7 request after_picture ≡ (ok picture, after_picture)
generate_illustration_again_example =
    generate_illustration_again always 7 request picture studio after_picture drawn

-- The write to the row fails.
abbrev failing : ImageServices
failing = studio_services 4

refused : (generate_illustration failing 7 request studio).0 ≡ raise service_error
unfolding generate_illustration owned_session find_session narrated_message find_message
    is_ai_response is_ai illustrate truthy_text cached_result reuse_or_draw draw_image make_image
    find_character find_scenario scene_prompt build_scene_narrative build_context
    illustration_prompt resolve_profile generate_image generate_google_imagen answered_image
    upload_image upload draw_id put_object object_url rstrip_slashes record_image keep_result
    update_image_url set_image extract_narrative_from_parsed result_key joinable build_anchor_lines
    merge_negative_guidance get find cleanup_generated_image
refused = refl

generate_illustration-raise_example :
    (generate_illustration failing 7 request studio).1.db ≡ studio.db
generate_illustration-raise_example =
    generate_illustration-raise failing 7 request service_error studio refused

object_url_picture : object_url always picture_key ≡ some picture_url
unfolding object_url rstrip_slashes
object_url_picture = refl

picture_key-IsKey : IsKey picture_key
unfolding lstrip_slashes
picture_key-IsKey = record { full = λ h. cc; plain = refl }

public_url-full : rstrip_slashes (text "https://img/") ≢ []
unfolding rstrip_slashes
public_url-full = λ h. cc

no_host : (host : Text) → s3_virtual_host always ≡ some host → ⊥
unfolding s3_virtual_host strip strip_left strip_right
no_host host h = cc

extract_object_key-object_url_example : extract_object_key always picture_url ≡ some picture_key
extract_object_key-object_url_example =
    extract_object_key-object_url always picture_key picture_url (inr public_url-full)
      (λ host h. absurd (no_host host h)) picture_key-IsKey object_url_picture

can_store : CanStore failing session picture_url studio
unfolding object_url rstrip_slashes
can_store = record {
  enabled = refl;
  key = picture_key-IsKey;
  base = inr public_url-full;
  reads = λ host h. absurd (no_host host h);
  addressed = refl;
  fresh = tt;
}

session_there : find_session 1 studio.db.sessions ≡ some session
unfolding find_session
session_there = refl

generate_illustration_cleaned_example :
    (generate_illustration failing 7 request studio).1.objects ≡ []
generate_illustration_cleaned_example =
    generate_illustration_cleaned failing 7 request session picture_url service_error studio
      session_there can_store refl refused

abbrev context : IllustrationPromptContext
context = record {
  scene_narrative = str (text "촛불");
  character_name = text "Ara";
  character_description = [];
  current_location = text "gate";
  scenario_name = text "Ruins";
  scenario_genre = text "fantasy";
  scenario_world_setting = text "old";
  scenario_tags = [];
  state_changes = none;
}

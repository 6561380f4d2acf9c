-- ===== src/Illustration/Requests/Refused.antt =====
-- A request for a picture that is refused, or fails.
use ai_saga.Common.{ℕ, ◌≡◌, Option, none, some, Error, Text, raise, arith}
use ai_saga.Entities.{GameMessage}
use ai_saga.Session.{GameSession}
use ai_saga.Illustration.Images.{ImageServices, Studio, delete_image, delete_object}
use ai_saga.Illustration.Requests.{
  GenerateIllustrationInput, cached_result, keep_result, forget_result, update_image_url,
  cleanup_generated_image, record_image, draw_image, reuse_image, reuse_or_draw, illustrate,
  generate_illustration,
}
use ai_saga.Illustration.Requests.Pictured.{make_image-db}

module _ (svc : ImageServices) where
  delete_image-db : (url : Text) (w : Studio) → (delete_image svc url w).1.db ≡ w.db
  unfolding delete_image delete_object
  delete_image-db url w = grind arith

  forget_result-db : (key : Text) (w : Studio) → (forget_result svc key w).1.db ≡ w.db
  unfolding forget_result
  forget_result-db key w = grind arith

  cleanup-db : (url key : Text) (w : Studio) → (cleanup_generated_image svc url key w).1.db ≡ w.db
  unfolding cleanup_generated_image
  cleanup-db url key w = grind (arith, delete_image-db, forget_result-db)

  update_image_url-raise :
      (i : ℕ) (url : Text) (e : Error) (w : Studio)
      → (update_image_url svc i url w).0 ≡ raise e
      → (update_image_url svc i url w).1.db ≡ w.db
  unfolding update_image_url
  update_image_url-raise i url e w h = grind arith

  keep_result-db : (key url : Text) (w : Studio) → (keep_result svc key url w).1.db ≡ w.db
  unfolding keep_result
  keep_result-db key url w = grind arith

  cached_result-db : (key : Text) (w : Studio) → (cached_result svc key w).1.db ≡ w.db
  unfolding cached_result
  cached_result-db key w = grind arith

  record_image-raise :
      (m : GameMessage) (url : Text) (e : Error) (w : Studio)
      → (record_image svc m url w).0 ≡ raise e
      → (record_image svc m url w).1.db ≡ w.db
  unfolding record_image
  record_image-raise m url e w h =
      grind (arith, cleanup-db, update_image_url-raise m.id url, keep_result-db)

  reuse_or_draw-raise :
      (s : GameSession) (m : GameMessage) (known : Option Text) (e : Error) (w : Studio)
      → (reuse_or_draw svc s m known w).0 ≡ raise e
      → (reuse_or_draw svc s m known w).1.db ≡ w.db
  unfolding reuse_or_draw reuse_image draw_image
  reuse_or_draw-raise s m none e w h = grind (arith, make_image-db, record_image-raise m)
  reuse_or_draw-raise s m (some url) e w h = grind (arith, update_image_url-raise m.id url)

  illustrate-raise :
      (s : GameSession) (m : GameMessage) (e : Error) (w : Studio)
      → (illustrate svc s m w).0 ≡ raise e
      → (illustrate svc s m w).1.db ≡ w.db
  unfolding illustrate
  illustrate-raise s m e w h = grind (arith, cached_result-db, reuse_or_draw-raise s m)

  -- A request that raises, whatever it raises, leaves the tables as they were: the message has a
  -- picture only once the request is answered.
  pub generate_illustration-raise :
      (u : ℕ) (input : GenerateIllustrationInput) (e : Error) (w : Studio)
      → (generate_illustration svc u input w).0 ≡ raise e
      → (generate_illustration svc u input w).1.db ≡ w.db
  unfolding generate_illustration
  generate_illustration-raise u input e w h = grind (arith, illustrate-raise)

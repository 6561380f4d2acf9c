-- ===== src/Illustration/Requests/Drawn.antt =====
-- What drawing and storing a picture leaves of the tables.
use ai_saga.Common.{
  ℕ, ◌≡◌, ◌≢◌, ◌⊎◌, inl, inr, refl, ap, false, Option, none, some, List, [], ◌∷◌, Text, ok, arith,
  Bool-cases, is_nil, ◌+◌,
}
use ai_saga.Entities.{GameMessage}
use ai_saga.Store.Tables.{Db}
use ai_saga.History.{find_message}
use ai_saga.Illustration.Images.{
  ImageServices, Studio, generate_google_imagen, draw_id, put_object, upload, upload_image,
  generate_image, object_url, object_key, dummy_url, answered_image,
}
use ai_saga.Illustration.Images.Urls.{object_url-ne-nil}
use ai_saga.Illustration.Images.Slashes.{is_nil-full}
use ai_saga.Illustration.Requests.{
  GenerateIllustrationResult, set_image, keep_result, update_image_url, cleanup_generated_image,
  record_image,
}

pub find_message-id :
    (i : ℕ) (ms : List GameMessage) (m : GameMessage) → find_message i ms ≡ some m → m.id ≡ i
unfolding find_message
find_message-id i [] m h = ground arith
find_message-id i (n ∷ ms) m h = ground (arith, find_message-id i ms m)

pub find_message-set_image :
    (i : ℕ) (url : Text) (ms : List GameMessage) (m : GameMessage)
    → find_message i ms ≡ some m
    → find_message i (set_image i url ms) ≡ some (record m { image_url = some url })
unfolding find_message set_image
find_message-set_image i url [] m h = ground arith
find_message-set_image i url (n ∷ ms) m h = ground (arith, find_message-set_image i url ms m)

pub find_message-other :
    (i j : ℕ) (url : Text) (ms : List GameMessage)
    → j ≢ i
    → find_message j (set_image i url ms) ≡ find_message j ms
unfolding find_message set_image
find_message-other i j url [] h = refl
find_message-other i j url (n ∷ ms) h = ground (arith, find_message-other i j url ms h)

module _ (svc : ImageServices) where
  -- The tables with an image of a message.
  abbrev pub with_image : Db → ℕ → Text → Db
  with_image db i url = record db { messages = set_image i url db.messages }

  pub imagen_lem :
      (p : Text) (w : Studio)
      → (image : Option Text) × (generate_google_imagen svc p w
          ≡ (ok image, record w { calls = w.calls + 1 }))
  unfolding generate_google_imagen
  imagen_lem p w = elim (Bool-cases (svc.fails w.calls)) [
    | inl failed ↦ (none, grind arith)
    | inr fine ↦ (answered_image (svc.answer w.calls p), grind arith)
  ]

  pub upload_image-db :
      (u s : Text) (image : Option Text) (w : Studio) → (upload_image svc u s image w).1.db ≡ w.db
  unfolding upload_image upload draw_id put_object
  upload_image-db u s none w = refl
  upload_image-db u s (some []) w = refl
  upload_image-db u s (some (b ∷ bs)) w = ground arith

  pub generate_image-db : (p s u : Text) (w : Studio) → (generate_image svc p s u w).1.db ≡ w.db
  unfolding generate_image
  generate_image-db p s u w =
      let (image, made) = imagen_lem p w in
      grind (arith, upload_image-db u s image (record w { calls = w.calls + 1 }))

  pub record_image-ok :
      (m : GameMessage) (url : Text) (r : GenerateIllustrationResult) (w w' : Studio)
      → record_image svc m url w ≡ (ok r, w')
      → (r ≡ record { message_id = m.id; image_url = url }) × (w'.db ≡ with_image w.db m.id url)
  unfolding record_image keep_result update_image_url cleanup_generated_image
  record_image-ok m url r w w' h = grind arith

  pub upload_image-url :
      (u s url : Text) (image : Option Text) (w : Studio)
      → (upload_image svc u s image w).0 ≡ ok (some url)
      → object_url svc (object_key svc u s (svc.uuid7 w.ids)) ≡ some url
  unfolding upload_image upload draw_id put_object
  upload_image-url u s url none w h = cc
  upload_image-url u s url (some []) w h = cc
  upload_image-url u s url (some (b ∷ bs)) w h = ground arith

  pub generate_image-url :
      (p s u url : Text) (w : Studio)
      → (generate_image svc p s u w).0 ≡ ok (some url)
      → (object_url svc (object_key svc u s (svc.uuid7 w.ids)) ≡ some url) ⊎ (url ≡ dummy_url)
  unfolding generate_image
  generate_image-url p s u url w h =
      let (image, made) = imagen_lem p w in
      grind (arith, upload_image-url u s url image (record w { calls = w.calls + 1 }))

  pub generate_image-full :
      (p s u url : Text) (w : Studio)
      → (generate_image svc p s u w).0 ≡ ok (some url)
      → is_nil url ≡ false
  generate_image-full p s u url w h = elim (generate_image-url p s u url w h) [
    | inl there ↦
        is_nil-full url (object_url-ne-nil svc (object_key svc u s (svc.uuid7 w.ids)) url there)
    | inr dummy ↦ ap is_nil dummy
  ]

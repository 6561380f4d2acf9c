-- ===== src/Illustration/Requests/Cleanup.antt =====
-- The stored picture of a request that fails.
use ai_saga.Common.{
  ℕ, ◌+◌, ◌≡◌, refl, not_found, server_error, ◌⊎◌, inl, inr, true, false, Option, none, some,
  Result-cases, Bool-cases, Option-cases, Error, Result, List, [], ◌∷◌, Text, text_eqb,
  text_eqb_iff, ok, raise, arith,
}
use ai_saga.Entities.{GameMessage}
use ai_saga.Session.{GameSession}
use ai_saga.Program.{>>=-step}
use ai_saga.Store.Tables.{find_character, find_scenario, find_session}
use ai_saga.Illustration.Images.{
  ImageServices, Studio, delete_image, delete_object, drop_object, extract_object_key, upload_image,
  upload, draw_id, put_object, generate_image, object_url, object_key,
}
use ai_saga.Illustration.Images.Urls.{IsKey, ReadsHost, HasBase, extract_object_key-object_url}
use ai_saga.Illustration.Requests.{
  GenerateIllustrationInput, illustrate, generate_illustration, owned_session, reuse_or_draw,
  cached_result, reuse_image, scene_prompt, keep_result, forget_result, update_image_url,
  cleanup_generated_image, make_image, record_image, draw_image,
}
use ai_saga.Illustration.Requests.Drawn.{imagen_lem}

abbrev pub IsFresh : Text → List Text → Type 0
IsFresh key [] = Unit {0}
IsFresh key (k ∷ ks) = (text_eqb k key ≡ false) × IsFresh key ks

drop_object-fresh : (key : Text) (ks : List Text) → IsFresh key ks → drop_object key ks ≡ ks
unfolding drop_object
drop_object-fresh key [] h = refl
drop_object-fresh key (k ∷ ks) (other, h) = grind (arith, drop_object-fresh key ks h)

drop_object-new : (key : Text) (ks : List Text) → IsFresh key ks → drop_object key (key ∷ ks) ≡ ks
unfolding drop_object
drop_object-new key ks h = rw ((text_eqb_iff key key).1 refl, drop_object-fresh key ks h) refl

module _ (svc : ImageServices) where
  -- What is left of a picture that was drawn and stored under the key, or was not.
  abbrev Drawn : Text → Text → Studio → Result (Option Text) × Studio → Type 0
  Drawn key url w (r, v) =
      ((r ≡ ok none) × (v.objects ≡ w.objects))
      ⊎ ((r ≡ ok (some url)) × (v.objects ≡ key ∷ w.objects) × (v.calls ≡ w.calls + 2))

  generate_image-Drawn :
      (p s u url : Text) (w : Studio)
      → svc.image_generation_enabled ≡ true
      → object_url svc (object_key svc u s (svc.uuid7 w.ids)) ≡ some url
      → Drawn (object_key svc u s (svc.uuid7 w.ids)) url w (generate_image svc p s u w)
  unfolding generate_image upload_image upload draw_id put_object
  generate_image-Drawn p s u url w on h =
      let (image, made) = imagen_lem svc p w in
      elim (Option-cases image) [
        | inl bare ↦ inl (grind arith)
        | inr ([], empty) ↦ inl (grind arith)
        | inr (b ∷ bs, full) ↦ elim (Bool-cases (svc.fails (w.calls + 1))) [
          | inl failed ↦ inl (grind arith)
          | inr fine ↦ inr (grind arith)
        ]
      ]

  record_image-cleaned :
      (m : GameMessage) (url key : Text) (e : Error) (v : Studio)
      → extract_object_key svc url ≡ some key
      → svc.fails (v.calls + 2) ≡ false
      → (record_image svc m url v).0 ≡ raise e
      → (record_image svc m url v).1.objects ≡ drop_object key v.objects
  unfolding record_image keep_result update_image_url cleanup_generated_image forget_result
      delete_image delete_object
  record_image-cleaned m url key e v h fine bad = grind arith

  -- The key of the next picture of a session.
  abbrev pub next_key : GameSession → Studio → Text
  next_key s w = object_key svc (svc.uuid_text s.user_id) (svc.uuid_text s.id) (svc.uuid7 w.ids)

  make_image-Drawn :
      (s : GameSession) (m : GameMessage) (url : Text) (w : Studio)
      → svc.image_generation_enabled ≡ true
      → object_url svc (next_key s w) ≡ some url
      → ((e : Error) × ((make_image svc s m w).0 ≡ raise e)
          × ((make_image svc s m w).1.objects ≡ w.objects))
        ⊎ ((v : Studio) × (make_image svc s m w ≡ (ok url, v))
            × (v.objects ≡ next_key s w ∷ w.objects)
            × (v.calls ≡ w.calls + 2))
  unfolding make_image
  make_image-Drawn s m url w on h =
      elim (Option-cases (find_character s.character_id w.db.characters)) [
        | inl none_there ↦ inl (not_found, grind arith, grind arith)
        | inr (c, there) ↦ elim (Option-cases (find_scenario s.scenario_id w.db.scenarios)) [
          | inl no_scenario ↦ inl (not_found, grind arith, grind arith)
          | inr (sc, set) ↦ elim (Result-cases (scene_prompt svc s m c sc)) [
            | inr (e, bad) ↦ inl (e, grind arith, grind arith)
            | inl (p, told) ↦
                elim (generate_image-Drawn p (svc.uuid_text s.id) (svc.uuid_text s.user_id) url w on
                  h) [
                    | inl (bare, same) ↦ inl (server_error, grind arith, grind arith)
                    | inr (drawn, kept, counted) ↦
                        let made =
                          generate_image svc p (svc.uuid_text s.id) (svc.uuid_text s.user_id) w in
                        inr (made.1, grind arith, kept, counted)
                  ]
          ]
        ]
      ]

  draw_image-cleaned :
      (s : GameSession) (m : GameMessage) (url : Text) (e : Error) (w : Studio)
      → svc.image_generation_enabled ≡ true
      → object_url svc (next_key s w) ≡ some url
      → extract_object_key svc url ≡ some (next_key s w)
      → IsFresh (next_key s w) w.objects
      → svc.fails (w.calls + 4) ≡ false
      → (draw_image svc s m w).0 ≡ raise e
      → (draw_image svc s m w).1.objects ≡ w.objects
  unfolding draw_image
  draw_image-cleaned s m url e w on h back new fine bad = elim (make_image-Drawn s m url w on h) [
    | inl (x, refused, same) ↦ grind arith
    | inr (v, made, kept, counted) ↦
        let cleared = drop_object-new (next_key s w) w.objects new in
        let step = >>=-step (make_image svc s m) (record_image svc m) w v url made in
        let still : svc.fails (v.calls + 2) ≡ false = grind arith in
        let cleaned = record_image-cleaned m url (next_key s w) e v back still in grind arith
  ]

  illustrate-cleaned :
      (s : GameSession) (m : GameMessage) (url : Text) (e : Error) (w : Studio)
      → svc.image_generation_enabled ≡ true
      → object_url svc (next_key s w) ≡ some url
      → extract_object_key svc url ≡ some (next_key s w)
      → IsFresh (next_key s w) w.objects
      → svc.fails (w.calls + 5) ≡ false
      → (illustrate svc s m w).0 ≡ raise e
      → (illustrate svc s m w).1.objects ≡ w.objects
  unfolding illustrate cached_result reuse_or_draw reuse_image update_image_url
  illustrate-cleaned s m url e w on h back new fine bad =
      grind (arith, draw_image-cleaned s m url e (record w { calls = w.calls + 1 }) on h back new)

  -- Images are generated, and the storage has an address at which the new object of the session is
  -- public.
  pub record CanStore (s : GameSession) (url : Text) (w : Studio) : Type 0 where
    pub enabled : svc.image_generation_enabled ≡ true
    pub key : IsKey (next_key s w)
    pub base : HasBase svc
    pub reads : ReadsHost svc (next_key s w)
    pub addressed : object_url svc (next_key s w) ≡ some url
    pub fresh : IsFresh (next_key s w) w.objects

  -- A request for a picture of a session that raises leaves no picture behind in the storage, where
  -- images are generated, the new object has a public address and a key that is not taken, and
  -- the call that would delete it does not fail.
  pub generate_illustration_cleaned :
      (u : ℕ) (input : GenerateIllustrationInput) (s : GameSession) (url : Text) (e : Error)
      (w : Studio)
      → find_session input.session_id w.db.sessions ≡ some s
      → CanStore s url w
      → svc.fails (w.calls + 5) ≡ false
      → (generate_illustration svc u input w).0 ≡ raise e
      → (generate_illustration svc u input w).1.objects ≡ w.objects
  unfolding generate_illustration owned_session
  generate_illustration_cleaned u input s url e w found can fine bad =
      let back =
        extract_object_key-object_url svc (next_key s w) url can.base can.reads can.key
          can.addressed in
      grind (
        arith,
        λ (m : GameMessage).
            illustrate-cleaned s m url e w can.enabled can.addressed back can.fresh fine,
      )

-- ===== src/Illustration/Requests/Pictured.antt =====
-- What a request for a picture leaves behind.
use ai_saga.Common.{
  ℕ, ◌≡◌, ◌≢◌, ◌⊎◌, inl, inr, refl, sym, ap, ◌∙◌, true, false, Option, none, some, [], ◌∷◌, Text,
  ok, arith, Result-cases, Option-cases, is_nil, lookup, ◌+◌,
}
use ai_saga.Entities.{GameMessage, is_ai_response}
use ai_saga.Session.{GameSession}
use ai_saga.Store.Tables.{find_session}
use ai_saga.History.{find_message}
use ai_saga.Program.{◌>>=◌, >>=-ok}
use ai_saga.Illustration.Images.{ImageServices, Studio}
use ai_saga.Illustration.Requests.{
  GenerateIllustrationInput, GenerateIllustrationResult, truthy_text, owned_session,
  narrated_message, cached_result, update_image_url, record_image, make_image, draw_image,
  reuse_image, reuse_or_draw, illustrate, generate_illustration, result_key,
}
use ai_saga.Illustration.Requests.Drawn.{
  find_message-id, find_message-set_image, find_message-other, with_image, generate_image-db,
  record_image-ok, generate_image-full,
}

module _ (svc : ImageServices) where
  reuse_image-ok :
      (m : GameMessage) (url : Text) (r : GenerateIllustrationResult) (w w' : Studio)
      → reuse_image svc m url w ≡ (ok r, w')
      → (r ≡ record { message_id = m.id; image_url = url }) × (w'.db ≡ with_image svc w.db m.id url)
  unfolding reuse_image update_image_url
  reuse_image-ok m url r w w' h = grind arith

  pub make_image-db :
      (s : GameSession) (m : GameMessage) (w : Studio) → (make_image svc s m w).1.db ≡ w.db
  unfolding make_image
  make_image-db s m w = grind (arith, generate_image-db)

  make_image-full :
      (s : GameSession) (m : GameMessage) (url : Text) (w : Studio)
      → (make_image svc s m w).0 ≡ ok url
      → is_nil url ≡ false
  unfolding make_image
  make_image-full s m url w h = grind (arith, generate_image-full)

  draw_image-ok :
      (s : GameSession) (m : GameMessage) (r : GenerateIllustrationResult) (w w' : Studio)
      → draw_image svc s m w ≡ (ok r, w')
      → (r.message_id ≡ m.id)
        × (w'.db ≡ with_image svc w.db m.id r.image_url)
        × (is_nil r.image_url ≡ false)
  unfolding draw_image
  draw_image-ok s m r w w' h =
      let (url, v, made, recorded) = >>=-ok (make_image svc s m) (record_image svc m) w w' r h in
      let (same, kept) = record_image-ok svc m url r v w' recorded in
      let full = make_image-full s m url w (ap (λ p. p.0) made) in
      let base = make_image-db s m w in grind arith

  truthy_text_lem :
      (o : Option Text) (t : Text) → truthy_text o ≡ some t → (o ≡ some t) × (is_nil t ≡ false)
  unfolding truthy_text
  truthy_text_lem none t h = cc
  truthy_text_lem (some []) t h = cc
  truthy_text_lem (some (c ∷ cs)) t h = ground arith

  cached_result-ok :
      (key : Text) (known : Option Text) (w v : Studio)
      → cached_result svc key w ≡ (ok known, v)
      → (v ≡ record w { calls = w.calls + 1 }) × (known ≡ truthy_text (lookup key w.results))
  unfolding cached_result
  cached_result-ok key known w v h = grind arith

  reuse_or_draw-ok :
      (s : GameSession) (m : GameMessage) (known : Option Text) (r : GenerateIllustrationResult)
      (w w' : Studio)
      → ((t : Text) → known ≡ some t → is_nil t ≡ false)
      → reuse_or_draw svc s m known w ≡ (ok r, w')
      → (r.message_id ≡ m.id)
        × (w'.db ≡ with_image svc w.db m.id r.image_url)
        × (is_nil r.image_url ≡ false)
  unfolding reuse_or_draw
  reuse_or_draw-ok s m none r w w' full h = draw_image-ok s m r w w' h
  reuse_or_draw-ok s m (some url) r w w' full h =
      let (same, kept) = reuse_image-ok m url r w w' h in let there = full url refl in grind arith

  -- What an illustrated message comes to: nothing changes if it has a picture, and otherwise it gets
  -- the one that is returned.
  illustrate-ok :
      (s : GameSession) (m : GameMessage) (r : GenerateIllustrationResult) (w w' : Studio)
      → illustrate svc s m w ≡ (ok r, w')
      → (r.message_id ≡ m.id)
        × (is_nil r.image_url ≡ false)
        × ((m.image_url ≡ some r.image_url) × (w' ≡ w)
            ⊎ (w'.db ≡ with_image svc w.db m.id r.image_url))
  unfolding illustrate
  illustrate-ok s m r w w' h = elim (Option-cases (truthy_text m.image_url)) [
    | inr (url, there) ↦ let (same, full) = truthy_text_lem m.image_url url there in grind arith
    | inl bare ↦
        let tried : (cached_result svc (result_key svc m.id) >>= reuse_or_draw svc s m) w
            ≡ (ok r, w') =
          grind arith in
        let (known, v, looked, played) =
          >>=-ok (cached_result svc (result_key svc m.id)) (reuse_or_draw svc s m) w w' r tried in
        let (moved, same) = cached_result-ok (result_key svc m.id) known w v looked in
        let (named, kept, full) =
          reuse_or_draw-ok s m known r v w'
            (λ t e. (truthy_text_lem (lookup (result_key svc m.id) w.results) t (sym same ∙ e)).1)
            played in
        (named, full, inr (kept ∙ ap (λ (x : Studio). with_image svc x.db m.id r.image_url) moved))
  ]

  -- What the request of the user `u` has found and leaves.
  pub record Pictured (u : ℕ) (input : GenerateIllustrationInput) (r : GenerateIllustrationResult)
      (w w' : Studio) : Type 0 where
    pub session : GameSession
    pub message : GameMessage
    pub found : find_session input.session_id w.db.sessions ≡ some session
    pub owned : session.user_id ≡ u
    pub told : find_message input.message_id w.db.messages ≡ some message
    pub belongs : message.session_id ≡ session.id
    pub narrated : is_ai_response message ≡ true
    pub named : r.message_id ≡ input.message_id
    pub full : is_nil r.image_url ≡ false
    pub shown :
        find_message input.message_id w'.db.messages
        ≡ some (record message { image_url = some r.image_url })
    pub others :
        (j : ℕ)
        → j ≢ input.message_id
        → find_message j w'.db.messages ≡ find_message j w.db.messages
    pub rest : w'.db ≡ record w.db { messages = w'.db.messages }

  pub accepted :
      (u : ℕ) (input : GenerateIllustrationInput) (r : GenerateIllustrationResult) (w w' : Studio)
      → generate_illustration svc u input w ≡ (ok r, w')
      → (s : GameSession) × (m : GameMessage) × (owned_session u
            (find_session input.session_id w.db.sessions)
          ≡ ok s)
        × (narrated_message s.id (find_message input.message_id w.db.messages) ≡ ok m)
        × (illustrate svc s m w ≡ (ok r, w'))
  unfolding generate_illustration
  accepted u input r w w' h =
      elim (Result-cases (owned_session u (find_session input.session_id w.db.sessions))) [
        | inr (e, refused) ↦ ground arith
        | inl (s, mine) ↦
            elim (Result-cases
              (narrated_message s.id (find_message input.message_id w.db.messages))) [
                | inr (e, refused) ↦ ground arith
                | inl (m, fits) ↦ (s, m, mine, fits, ground arith)
              ]
      ]

  pub owned_session-ok :
      (u : ℕ) (f : Option GameSession) (s : GameSession)
      → owned_session u f ≡ ok s
      → (f ≡ some s) × (s.user_id ≡ u)
  unfolding owned_session
  owned_session-ok u f s h = ground arith

  pub narrated_message-ok :
      (i : ℕ) (f : Option GameMessage) (m : GameMessage)
      → narrated_message i f ≡ ok m
      → (f ≡ some m) × (m.session_id ≡ i) × (is_ai_response m ≡ true)
  unfolding narrated_message
  narrated_message-ok i f m h = ground arith

  changed_lem :
      (i : ℕ) (m : GameMessage) (url : Text) (w w' : Studio)
      → find_message i w.db.messages ≡ some m
      → m.id ≡ i
      → (m.image_url ≡ some url) × (w' ≡ w) ⊎ (w'.db ≡ with_image svc w.db m.id url)
      → (find_message i w'.db.messages ≡ some (record m { image_url = some url }))
        × ((j : ℕ) → j ≢ i → find_message j w'.db.messages ≡ find_message j w.db.messages)
        × (w'.db ≡ record w.db { messages = w'.db.messages })
  changed_lem i m url w w' told same (inl (has, unchanged)) =
      (grind arith, λ j other. grind arith, grind arith)
  changed_lem i m url w w' told same (inr kept) = (
    grind (arith, find_message-set_image i url w.db.messages m told),
    λ j other. grind (arith, find_message-other i j url w.db.messages other),
    grind arith,
  )

  -- A request that is answered was for a message of a session of the user, told by the game. It
  -- leaves that message with the picture that is returned, whose URL is not empty, and no other
  -- message, nor anything else of the tables, has changed.
  pub generate_illustration-Pictured :
      (u : ℕ) (input : GenerateIllustrationInput) (r : GenerateIllustrationResult) (w w' : Studio)
      → generate_illustration svc u input w ≡ (ok r, w')
      → Pictured u input r w w'
  generate_illustration-Pictured u input r w w' h =
      let (s, m, mine, fits, done) = accepted u input r w w' h in
      let (found, owned) =
        owned_session-ok u (find_session input.session_id w.db.sessions) s mine in
      let (told, belongs, narrated) =
        narrated_message-ok s.id (find_message input.message_id w.db.messages) m fits in
      let (named, full, changed) = illustrate-ok s m r w w' done in
      let same = find_message-id input.message_id w.db.messages m told in
      let (shown, others, rest) =
        changed_lem input.message_id m r.image_url w w' told same changed in
      record {
        session = s;
        message = m;
        found = found;
        owned = owned;
        told = told;
        belongs = belongs;
        narrated = narrated;
        named = named ∙ same;
        full = full;
        shown = shown;
        others = others;
        rest = rest;
      }

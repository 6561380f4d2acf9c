-- ===== src/Illustration/Requests/Again.antt =====
-- A second request for the same picture.
use ai_saga.Common.{
  ℕ, ◌≡◌, refl, ap, sym, ◌∙◌, true, false, Option, some, [], ◌∷◌, Text, ok, arith, is_nil,
}
use ai_saga.Entities.{GameMessage, is_ai_response}
use ai_saga.Store.Tables.{find_session}
use ai_saga.Session.{GameSession}
use ai_saga.History.{find_message}
use ai_saga.Illustration.Images.{ImageServices, Studio}
use ai_saga.Illustration.Requests.{
  GenerateIllustrationInput, GenerateIllustrationResult, truthy_text, owned_session,
  narrated_message, illustrate, generate_illustration,
}
use ai_saga.Illustration.Requests.Pictured.{generate_illustration-Pictured}
use ai_saga.Illustration.Requests.Drawn.{find_message-id}

truthy_text-full : (t : Text) → is_nil t ≡ false → truthy_text (some t) ≡ some t
unfolding truthy_text
truthy_text-full [] h = cc
truthy_text-full (c ∷ cs) h = refl

owned_session-mine :
    (u : ℕ) (f : Option GameSession) (s : GameSession)
    → f ≡ some s
    → s.user_id ≡ u
    → owned_session u f ≡ ok s
unfolding owned_session
owned_session-mine u f s h e = ground arith

narrated_message-told :
    (i : ℕ) (f : Option GameMessage) (m : GameMessage)
    → f ≡ some m
    → m.session_id ≡ i
    → is_ai_response m ≡ true
    → narrated_message i f ≡ ok m
unfolding narrated_message
narrated_message-told i f m h e told = ground arith

module _ (svc : ImageServices) where
  illustrate-drawn :
      (s : GameSession) (m : GameMessage) (url : Text) (w : Studio)
      → m.image_url ≡ some url
      → is_nil url ≡ false
      → illustrate svc s m w ≡ (ok (record { message_id = m.id; image_url = url }), w)
  unfolding illustrate
  illustrate-drawn s m url w has full =
      let seen = ap truthy_text has ∙ truthy_text-full url full in grind arith

  -- A request whose guards pass comes to what the message comes to.
  generate_illustration-allowed :
      (u : ℕ) (input : GenerateIllustrationInput) (s : GameSession) (m : GameMessage) (w : Studio)
      → owned_session u (find_session input.session_id w.db.sessions) ≡ ok s
      → narrated_message s.id (find_message input.message_id w.db.messages) ≡ ok m
      → generate_illustration svc u input w ≡ illustrate svc s m w
  unfolding generate_illustration
  generate_illustration-allowed u input s m w mine fits = ground arith

  -- A request that was answered is answered again with the same picture, and the second time nothing
  -- is drawn, stored or written.
  pub generate_illustration_again :
      (u : ℕ) (input : GenerateIllustrationInput) (r : GenerateIllustrationResult) (w w' : Studio)
      → generate_illustration svc u input w ≡ (ok r, w')
      → generate_illustration svc u input w' ≡ (ok r, w')
  unfolding is_ai_response
  generate_illustration_again u input r w w' h =
      let p = generate_illustration-Pictured svc u input r w w' h in
      let m : GameMessage = record (p.message) { image_url = some r.image_url } in
      let kept = ap (λ db. find_session input.session_id db.sessions) p.rest ∙ p.found in
      let mine =
        owned_session-mine u (find_session input.session_id w'.db.sessions) p.session kept
          p.owned in
      let fits =
        narrated_message-told (p.session.id) (find_message input.message_id w'.db.messages) m
          p.shown p.belongs p.narrated in
      let same = find_message-id input.message_id w.db.messages p.message p.told in
      generate_illustration-allowed u input p.session m w' mine fits
      ∙ illustrate-drawn p.session m r.image_url w' refl p.full
      ∙ ap (λ i. (ok (record { message_id = i; image_url = r.image_url }), w')) (same ∙ sym p.named)

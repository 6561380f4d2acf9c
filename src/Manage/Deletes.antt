-- ===== src/Manage/Deletes.antt =====
-- What a deletion takes away, and when it cannot.
use ai_saga.Common.{
  ℕ, ◌≡◌, ◌≢◌, refl, sym, ◌∙◌, Option-cases, inl, inr, true, none, some, List, [], ◌∷◌, ok, raise,
  service_error, All, arith,
}
use ai_saga.Entities.{GameMessage, GameMemory}
use ai_saga.Session.{GameSession}
use ai_saga.Character.{CharacterEntity}
use ai_saga.Store.Tables.{find_session, find_character}
use ai_saga.Store.Rows.{find_character-id}
use ai_saga.Store.Monad.{World, in_transaction}
use ai_saga.Store.Services.{Services}
use ai_saga.Manage.{
  drop_session, drop_messages, drop_memories, drop_character, is_played, deletable,
  delete_session_rows, delete_character, delete_session,
}

drop_session_self : (i : ℕ) (ss : List GameSession) → find_session i (drop_session i ss) ≡ none
unfolding drop_session find_session
drop_session_self i [] = refl
drop_session_self i (s ∷ ss) = ground (arith, drop_session_self i ss)

drop_session-other :
    (i j : ℕ) (ss : List GameSession)
    → j ≢ i
    → find_session j (drop_session i ss) ≡ find_session j ss
unfolding drop_session find_session
drop_session-other i j [] h = refl
drop_session-other i j (s ∷ ss) h = ground (arith, drop_session-other i j ss h)

drop_character_self :
    (i : ℕ) (cs : List CharacterEntity) → find_character i (drop_character i cs) ≡ none
unfolding drop_character find_character
drop_character_self i [] = refl
drop_character_self i (c ∷ cs) = ground (arith, drop_character_self i cs)

drop_messages-Other :
    (i : ℕ) (ms : List GameMessage) → All (λ m. m.session_id ≢ i) (drop_messages i ms)
unfolding drop_messages
drop_messages-Other i [] = tt
drop_messages-Other i (m ∷ ms) = ground (arith, drop_messages-Other i ms)

drop_memories-Other :
    (i : ℕ) (ms : List GameMemory) → All (λ m. m.session_id ≢ i) (drop_memories i ms)
unfolding drop_memories
drop_memories-Other i [] = tt
drop_memories-Other i (m ∷ ms) = ground (arith, drop_memories-Other i ms)

-- A session that is found under another identifier still names its character.
drop_session-is_played :
    (i j c : ℕ) (ss : List GameSession) (r : GameSession)
    → j ≢ i
    → find_session j ss ≡ some r
    → r.character_id ≡ c
    → is_played c (drop_session i ss) ≡ true
unfolding drop_session find_session is_played
drop_session-is_played i j c [] r h f n = ground arith
drop_session-is_played i j c (s ∷ ss) r h f n = ground (arith, drop_session-is_played i j c ss r h)

module _ (svc : Services) where
  -- What a deletion of the session `i` by the user `u` has found and leaves.
  pub record Gone (u i : ℕ) (w w' : World svc.random.Gen svc.Stored) : Type 0 where
    pub session : GameSession
    pub character : CharacterEntity
    pub found : find_session i w.db.sessions ≡ some session
    pub row : find_character session.character_id w.db.characters ≡ some character
    pub owned : character.user_id ≡ u
    pub removed : find_session i w'.db.sessions ≡ none
    pub others : (j : ℕ) → j ≢ i → find_session j w'.db.sessions ≡ find_session j w.db.sessions
    pub messages : All (λ m. m.session_id ≢ i) w'.db.messages
    pub memories : All (λ m. m.session_id ≢ i) w'.db.memories
    pub person : find_character session.character_id w'.db.characters ≡ none

  -- A deletion that does not raise has found the session and its character, which is the user's.
  -- After it neither of them is found, no message or memory of the session is left, and every other
  -- session is found as before.
  pub delete_session-Gone :
      (u i : ℕ) (w w' : World svc.random.Gen svc.Stored)
      → delete_session svc u i w ≡ (ok tt, w')
      → Gone u i w w'
  unfolding delete_session delete_session_rows delete_character deletable
  delete_session-Gone u i w w' h = elim (Option-cases (find_session i w.db.sessions)) [
    | inl missing ↦ ground arith
    | inr (s, found) ↦ elim (Option-cases (find_character s.character_id w.db.characters)) [
      | inl missing ↦ ground arith
      | inr (c, row) ↦
          let named : c.id ≡ s.character_id =
            find_character-id s.character_id w.db.characters c row in
          record {
            session = s;
            character = c;
            found = found;
            row = row;
            owned = grind arith;
            removed = grind (arith, drop_session_self i w.db.sessions);
            others = λ j other. grind (arith, drop_session-other i j w.db.sessions other);
            messages = grind (arith, drop_messages-Other i w.db.messages);
            memories = grind (arith, drop_memories-Other i w.db.memories);
            person = grind (arith, drop_character_self s.character_id w.db.characters);
          }
    ]
  ]

  -- If another session names the same character, the owner's deletion of a session fails, and the
  -- request is rolled back to the committed data.
  pub delete_session_shared :
      (u i j : ℕ) (w : World svc.random.Gen svc.Stored) (s r : GameSession) (c : CharacterEntity)
      → find_session i w.db.sessions ≡ some s
      → find_character s.character_id w.db.characters ≡ some c
      → c.user_id ≡ u
      → j ≢ i
      → find_session j w.db.sessions ≡ some r
      → r.character_id ≡ s.character_id
      → in_transaction (delete_session svc u i) w
        ≡ (raise service_error, record w { db = w.committed })
  unfolding delete_session delete_session_rows delete_character deletable
  delete_session_shared u i j w s r c found row owned other also same =
      let named : c.id ≡ s.character_id = find_character-id s.character_id w.db.characters c row in
      grind (arith, drop_session-is_played i j c.id w.db.sessions r other also (same ∙ sym named))

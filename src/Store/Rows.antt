-- ===== src/Store/Rows.antt =====
-- Rows found under an identifier, and sessions found after one is saved.
use ai_saga.Common.{ℕ, ◌≡◌, ◌≢◌, List, [], ◌∷◌, some, arith, Bool-cases, inl, inr, eqb}
use ai_saga.Session.{GameSession}
use ai_saga.Character.{CharacterEntity}
use ai_saga.Store.Tables.{find_session, find_character, save_session, overwrite_session}

pub find_session-id :
    (i : ℕ) (ss : List GameSession) (s : GameSession) → find_session i ss ≡ some s → s.id ≡ i
unfolding find_session
find_session-id i [] s h = ground arith
find_session-id i (t ∷ ss) s h = ground (arith, find_session-id i ss s)

pub find_character-id :
    (i : ℕ) (cs : List CharacterEntity) (c : CharacterEntity)
    → find_character i cs ≡ some c
    → c.id ≡ i
unfolding find_character
find_character-id i [] c h = ground arith
find_character-id i (d ∷ cs) c h = ground (arith, find_character-id i cs c)

-- A row that reads as a session does, in the columns that its play decides.
pub record Reads (t r : GameSession) : Type 0 where
  pub id : r.id ≡ t.id
  pub turns : r.turn_count ≡ t.turn_count
  pub limit : r.max_turns ≡ t.max_turns
  pub status : r.status ≡ t.status
  pub ending_type : r.ending_type ≡ t.ending_type

-- A saved session is found under its identifier.
pub find-save :
    (t : GameSession) (ss : List GameSession)
    → (r : GameSession) × (find_session t.id (save_session t ss) ≡ some r) × Reads t r
unfolding find_session save_session overwrite_session
find-save t [] = (t, ground arith, ground arith)
find-save t (s ∷ ss) = elim (Bool-cases (eqb s.id t.id)) [
  | inl same ↦ (overwrite_session s t, ground arith, ground arith)
  | inr other ↦ let (r, found, reads) = find-save t ss in (r, ground arith, reads)
]

pub find_session-other :
    (s : GameSession) (j : ℕ) (ss : List GameSession)
    → j ≢ s.id
    → find_session j (save_session s ss) ≡ find_session j ss
unfolding find_session save_session overwrite_session
find_session-other s j [] h = ground arith
find_session-other s j (r ∷ rs) h = ground (arith, find_session-other s j rs h)

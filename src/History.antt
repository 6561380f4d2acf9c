-- ===== src/History.antt =====
-- The pages of a session's messages: `get_messages_with_cursor` of
-- app/game/infrastructure/repositories/game_message_repository.py. What the database does for
-- `ORDER BY created_at DESC, id DESC` is a parameter.
pub mod Pages
use ai_saga.Common.{
  ℕ, zero, suc, ◌+◌, Bool, true, false, ◌&&◌, ◌||◌, Option, none, some, List, [], ◌∷◌, ◌++◌,
  if◌then◌else◌, eqb, ltb, length, take,
}
use ai_saga.Entities.{GameMessage}

unfoldable pub find_message : ℕ → List GameMessage → Option GameMessage
find_message i [] = none
find_message i (m ∷ ms) = if eqb m.id i then some m else find_message i ms

-- The condition of the query for the cursor's row `c`.
unfoldable pub is_older : GameMessage → GameMessage → Bool
is_older c m = ltb m.created_at c.created_at || (eqb m.created_at c.created_at && ltb m.id c.id)

-- `WHERE`
unfoldable pub select_rows : (GameMessage → Bool) → List GameMessage → List GameMessage
select_rows p [] = []
select_rows p (m ∷ ms) = let rest = select_rows p ms in if p m then m ∷ rest else rest

-- `orms[-1].id if orms and has_more else None`
unfoldable pub last_id : List GameMessage → Option ℕ
last_id [] = none
last_id (m ∷ []) = some m.id
last_id (m ∷ n ∷ ms) = last_id (n ∷ ms)

pub record Page : Type 0 where
  pub messages : List GameMessage
  pub next_cursor : Option ℕ
  pub has_more : Bool

-- The limit of one more than asked for, and what is made of it.
unfoldable pub cut : ℕ → List GameMessage → Page
cut limit rows =
    let fetched = take (suc limit) rows in
    if ltb limit (length fetched)
    then record {
      messages = take limit fetched;
      next_cursor = last_id (take limit fetched);
      has_more = true;
    }
    else record { messages = fetched; next_cursor = none; has_more = false }

module _ (order : List GameMessage → List GameMessage) where
  unfoldable pub session_rows : ℕ → List GameMessage → List GameMessage
  session_rows session_id table = order (select_rows (λ m. eqb m.session_id session_id) table)

  -- A cursor that is no message is ignored. The condition on the rows is taken after their order,
  -- which it does not change.
  unfoldable pub rows_after : ℕ → List GameMessage → Option ℕ → List GameMessage
  unfolding session_rows
  rows_after session_id table none = session_rows session_id table
  rows_after session_id table (some i) = elim (find_message i table) [
    | none ↦ session_rows session_id table
    | some c ↦ select_rows (is_older c) (session_rows session_id table)
  ]

  unfoldable pub get_messages_with_cursor : ℕ → List GameMessage → ℕ → Option ℕ → Page
  unfolding rows_after cut
  get_messages_with_cursor session_id table limit cursor =
      cut limit (rows_after session_id table cursor)

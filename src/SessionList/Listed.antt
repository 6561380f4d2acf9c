-- ===== src/SessionList/Listed.antt =====
-- Whose sessions a page lists.
use ai_saga.Common.{ℕ, suc, ◌<◌, ◌≡◌, ◌≤◌, true, false, Option, none, some, List, length, All}
use ai_saga.Values.{SessionStatus}
use ai_saga.Session.{GameSession}
use ai_saga.Store.Tables.{Db}
use ai_saga.SessionList.{
  SessionListItem, SessionPage, character_ids, is_among, status_number, has_status, last_item,
}
use ai_saga.SessionList.Wanted.{wanted, count}

-- What a page for the user and the status may list.
pub record IsListed (db : Db) (u : ℕ) (status : Option SessionStatus) (i : SessionListItem)
    : Type 0 where
  pub owned : is_among i.character.id (character_ids u db.characters) ≡ true
  pub asked : (x : SessionStatus) → status ≡ some x → status_number i.status ≡ status_number x

-- The condition of the query on a row, but for the cursor.
abbrev Selected : List ℕ → Option SessionStatus → GameSession → Type 0
Selected ids status s = (is_among s.character_id ids ≡ true) × (has_status status s ≡ true)

-- The list that a page of `limit` items is cut from, where there are `total` sessions to list.
abbrev Fits : ℕ → ℕ → List SessionListItem → Type 0
Fits limit total items =
    (total ≤ limit → length items ≡ total) × (limit < total → length items ≡ suc limit)

-- A page for a user: whose sessions it has, how many of those there are, and where the next starts.
pub record IsPage (db : Db) (u : ℕ) (status : Option SessionStatus) (limit : ℕ) (cursor : Option ℕ)
    (page : SessionPage) : Type 0 where
  pub items : All (IsListed db u status) page.items
  pub whole :
      count (wanted db u status cursor) db.sessions ≤ limit
      → (length page.items ≡ count (wanted db u status cursor) db.sessions)
        × (page.has_more ≡ false)
        × (page.next_cursor ≡ none)
  pub full :
      limit < count (wanted db u status cursor) db.sessions
      → (length page.items ≡ limit)
        × (page.has_more ≡ true)
        × (page.next_cursor ≡ last_item page.items)

-- An order gives the same rows, as many as there are.
pub record IsOrder (order : List GameSession → List GameSession) : Type 1 where
  pub all : (P : GameSession → Type 0) (ss : List GameSession) → All P ss → All P (order ss)
  pub count : (ss : List GameSession) → length (order ss) ≡ length ss
